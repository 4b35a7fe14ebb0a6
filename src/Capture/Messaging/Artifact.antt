-- ===== src/Capture/Messaging/Artifact.antt =====
-- `validateArtifactEnqueueMessage` and `authorizeArtifactEnqueue` of
-- apps/extension/src/capture/messaging.ts.
use newell_ai.Common.{
  ℕ, Text, codes, text_eq, trim, Option, none, some, not, ◌&&◌, ◌||◌, List, [], ◌∷◌, any, map, take,
  length, leb, ltb, ◌==◌, if◌then◌else◌,
}
use newell_ai.Common.Int.{pos}
use newell_ai.Contracts.{ArtifactDirection, user_uploaded, assistant_generated}
use newell_ai.Artifacts.Allowlist.{artifact_max_bytes}
use newell_ai.Queue.Sync.Sanitize.{to_lower}
use newell_ai.Value.{Value, undefined, number, string, field}
use newell_ai.Worker.Validate.Artifact.{is_sha256}
use newell_ai.Capture.Messaging.{
  Gate, passed, ◌>>=◌, ensure, present, is_object_like, has_type, validate_conversation_id,
  validated_source_key, validate_captured_at, Location, SenderLike, from_chatgpt,
}
use newell_ai.Capture.Messaging.Bytes.{coerce_artifact_bytes}

pub record ArtifactEnqueueMessage : Type 0 where
  pub conversation_id : Text
  pub client_turn_id : Text
  pub source_key : Text
  pub direction : ArtifactDirection
  pub mime_type : Text
  pub declared_sha256 : Text
  pub declared_byte_size : ℕ
  -- Any string: the source casts it to the type of the provenance without a test.
  pub image_provenance : Option Text
  pub original_filename : Option Text
  pub source_url : Option Text
  pub captured_at : Option Text
  pub bytes : Option (List ℕ)

abbrev pub artifact_enqueue_type : Text
artifact_enqueue_type = codes "artifactEnqueue"

-- The set `ARTIFACT_MIME`
abbrev pub artifact_mime : List Text
artifact_mime = codes "image/png" ∷ codes "image/jpeg" ∷ codes "image/webp" ∷ []

unfoldable pub client_turn_id_in : Value → Option Text
client_turn_id_in (string s) = if length (trim s) == 0 then none else some (trim s)
client_turn_id_in v = none

unfoldable pub direction_in : Value → Option ArtifactDirection
direction_in (string s) =
    if text_eq s (codes "user_uploaded")
    then some user_uploaded
    else if text_eq s (codes "assistant_generated")
    then some assistant_generated
    else none
direction_in v = none

unfoldable pub mime_in : Value → Option Text
unfolding any
mime_in (string s) = if any (text_eq s) artifact_mime then some s else none
mime_in v = none

-- The checksum, in the lower case of the message.
unfoldable pub sha256_in : Value → Option Text
unfolding is_sha256
sha256_in (string s) = if is_sha256 s then some (map to_lower s) else none
sha256_in v = none

unfoldable pub byte_size_in : Value → Option ℕ
byte_size_in (number (pos n)) = if n == 0 || ltb artifact_max_bytes n then none else some n
byte_size_in v = none

-- The bytes, if there are any: they must have the declared size.
unfoldable pub bytes_in : Value → ℕ → Gate (Option (List ℕ))
unfolding coerce_artifact_bytes
bytes_in undefined size = passed none
bytes_in v size = do
  bytes ← present (coerce_artifact_bytes v) (codes "bytes")
  sized ←
      ensure
        (not (length bytes == 0) && leb (length bytes) artifact_max_bytes && length bytes == size)
        (codes "bytes")
  passed (some bytes)

-- `value.slice(0, n)`, if it is a string
abbrev pub text_up_to : ℕ → Value → Option Text
text_up_to n (string s) = some (take n s)
text_up_to n v = none

abbrev pub any_text : Value → Option Text
any_text (string s) = some s
any_text v = none

-- `validateArtifactEnqueueMessage`
unfoldable pub validate_artifact_enqueue_message : Value → Gate ArtifactEnqueueMessage
unfolding client_turn_id_in direction_in mime_in sha256_in byte_size_in bytes_in
validate_artifact_enqueue_message raw = do
  shape ← ensure (is_object_like raw) (codes "not_object")
  kind ← ensure (has_type artifact_enqueue_type (field (codes "type") raw)) (codes "wrong_type")
  conversation_id ←
      present (validate_conversation_id (field (codes "conversation_id") raw))
        (codes "conversation_id")
  client_turn_id ←
      present (client_turn_id_in (field (codes "client_turn_id") raw)) (codes "client_turn_id")
  source_key ← present (validated_source_key (field (codes "source_key") raw)) (codes "source_key")
  direction ← present (direction_in (field (codes "direction") raw)) (codes "direction")
  mime_type ← present (mime_in (field (codes "mime_type") raw)) (codes "mime_type")
  sha256 ← present (sha256_in (field (codes "declared_sha256") raw)) (codes "declared_sha256")
  byte_size ←
      present (byte_size_in (field (codes "declared_byte_size") raw)) (codes "declared_byte_size")
  bytes ← bytes_in (field (codes "bytes") raw) byte_size
  passed (record {
    conversation_id = conversation_id;
    client_turn_id = client_turn_id;
    source_key = source_key;
    direction = direction;
    mime_type = mime_type;
    declared_sha256 = sha256;
    declared_byte_size = byte_size;
    image_provenance = any_text (field (codes "image_provenance") raw);
    original_filename = text_up_to 512 (field (codes "original_filename") raw);
    source_url = text_up_to 2048 (field (codes "source_url") raw);
    captured_at = validate_captured_at (field (codes "captured_at") raw);
    bytes = bytes;
  })

module _ (parse_url : Text → Option Location) where
  -- `authorizeArtifactEnqueue`
  unfoldable pub authorize_artifact_enqueue :
      Value → SenderLike → Text → Gate ArtifactEnqueueMessage
  unfolding from_chatgpt validate_artifact_enqueue_message
  authorize_artifact_enqueue raw sender extension_id =
      from_chatgpt parse_url sender extension_id >>= λ ok. validate_artifact_enqueue_message raw
