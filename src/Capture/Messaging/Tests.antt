-- ===== src/Capture/Messaging/Tests.antt =====
-- Messages on concrete senders, and the theorems at concrete inputs.
use newell_ai.Common.{text_eq, trim, ℕ, Text, codes, none, some, Option, List, [], ◌∷◌, ◌≡◌, refl}
use newell_ai.Common.Int.{pos}
use newell_ai.Contracts.{user, user_uploaded}
use newell_ai.Value.{field, Value, array, object, number, string, no_props, prop}
use newell_ai.Capture.Messaging.{
  ◌>>=◌, ensure, present, passed, Location, SenderLike, CaptureEnqueueMessage,
  authorize_capture_enqueue,
}
use newell_ai.Capture.Messaging.Bytes.{wire_bytes}
use newell_ai.Capture.Messaging.Artifact.{ArtifactEnqueueMessage}

abbrev pixel : List ℕ
pixel = 1 ∷ 0 ∷ 255 ∷ []

abbrev parse_any : Text → Option Location
parse_any s = some (record {
  protocol = codes "https:";
  origin = codes "https://chatgpt.com";
  hostname = codes "chatgpt.com";
})

abbrev page : SenderLike
page = record { id = some (codes "me"); url = none; origin = none; tab = some (some (codes "p")) }

abbrev turn_body : Value
turn_body = object (
    prop (codes "type") (string (codes "captureEnqueue")) (
      prop (codes "conversation_id") (string (codes "c-1")) (
        prop (codes "source_key") (string (codes "k")) (
          prop (codes "speaker") (string (codes "user"))
            (prop (codes "text") (string (codes "hi")) no_props)))))

abbrev turn_message : CaptureEnqueueMessage
turn_message = record {
  conversation_id = codes "c-1";
  source_key = codes "k";
  speaker = user;
  text = codes "hi";
  captured_at = none;
}

passes_turn : authorize_capture_enqueue parse_any turn_body page (codes "me") ≡ passed turn_message
unfolding authorize_capture_enqueue ◌>>=◌ text_eq codes ensure field present trim
passes_turn = refl

abbrev sha : Text
sha = codes "0123456789abcdef0123456789abcdef0123456789abcdef0123456789abcdef"

abbrev image_body : Value
image_body = object (
    prop (codes "type") (string (codes "artifactEnqueue")) (
      prop (codes "conversation_id") (string (codes "c-1")) (
        prop (codes "client_turn_id") (string (codes "t")) (
          prop (codes "source_key") (string (codes "k")) (
            prop (codes "direction") (string (codes "user_uploaded")) (
              prop (codes "mime_type") (string (codes "image/png")) (
                prop (codes "declared_sha256") (string sha) (
                  prop (codes "declared_byte_size") (number (pos 3))
                    (prop (codes "bytes") (array (wire_bytes pixel)) no_props)))))))))

abbrev image_message : ArtifactEnqueueMessage
image_message = record {
  conversation_id = codes "c-1";
  client_turn_id = codes "t";
  source_key = codes "k";
  direction = user_uploaded;
  mime_type = codes "image/png";
  declared_sha256 = sha;
  declared_byte_size = 3;
  image_provenance = none;
  original_filename = none;
  source_url = none;
  captured_at = none;
  bytes = some pixel;
}
