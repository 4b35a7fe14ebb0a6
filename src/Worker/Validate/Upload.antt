-- ===== src/Worker/Validate/Upload.antt =====
-- apps/worker/src/validate/uploadRequest.ts.
pub mod Turns
pub mod Laws
pub mod Request
use newell_ai.Common.{
  ◌>>=◌, map, length, ltb, ℕ, suc, Text, codes, decimal, text_eq, Option, none, some, Bool, true,
  false, List, [], ◌∷◌, ◌++◌, if◌then◌else◌,
}
use newell_ai.Contracts.{
  Speaker, user, assistant, TurnPayload, ConversationMetadata, CaptureMetadata, UploadRequest,
}
use newell_ai.Value.{Value, array, elements, field, is_plain_object}
use newell_ai.Worker.Validate.{
  ValidationIssue, Checked, Validated, well_formed, malformed, clean, issue, joined, object_or,
  expect_string, expect_optional_string, expect_optional_number,
}

abbrev pub conversation_fields : Value → Checked ConversationMetadata
conversation_fields value =
    let conversation_id =
      expect_string (field (codes "conversation_id") value) (codes "conversation.conversation_id")
        true in
    let user_id =
      expect_string (field (codes "user_id") value) (codes "conversation.user_id") true in
    let title = expect_optional_string (field (codes "title") value) (codes "conversation.title") in
    let source_model =
      expect_optional_string (field (codes "source_model") value)
        (codes "conversation.source_model") in
    let started_at =
      expect_optional_string (field (codes "started_at") value) (codes "conversation.started_at") in
    record {
      value = do
        id ← conversation_id.value
        account ← user_id.value
        some (record {
          conversation_id = id;
          user_id = account;
          title = title.value;
          source_model = source_model.value;
          started_at = started_at.value;
        });
      issues = joined (
          conversation_id.issues ∷ user_id.issues ∷ title.issues ∷ source_model.issues
          ∷ started_at.issues ∷ []);
    }

-- `parseConversation`
unfoldable pub parse_conversation : Value → Checked ConversationMetadata
unfolding object_or
parse_conversation value = object_or value (codes "conversation") (conversation_fields value)

abbrev pub capture_fields : Value → Checked CaptureMetadata
capture_fields value =
    let capture_client =
      expect_string (field (codes "capture_client") value) (codes "capture.capture_client") true in
    let version =
      expect_optional_string (field (codes "capture_client_version") value)
        (codes "capture.capture_client_version") in
    let surface =
      expect_optional_string (field (codes "surface") value) (codes "capture.surface") in
    let batch =
      expect_optional_string (field (codes "captured_batch_id") value)
        (codes "capture.captured_batch_id") in
    record {
      value = do
        client ← capture_client.value
        some (record {
          capture_client = client;
          capture_client_version = version.value;
          surface = surface.value;
          captured_batch_id = batch.value;
        });
      issues = joined (capture_client.issues ∷ version.issues ∷ surface.issues ∷ batch.issues ∷ []);
    }

-- `parseCapture`
unfoldable pub parse_capture : Value → Checked CaptureMetadata
unfolding object_or
parse_capture value = object_or value (codes "capture") (capture_fields value)

-- The test of `speakerRaw` behind `expectString`.
unfoldable pub speaker_of : Option Text → Text → Checked Speaker
speaker_of none path = clean none
speaker_of (some raw) path =
    if text_eq raw (codes "user")
    then clean (some user)
    else if text_eq raw (codes "assistant")
    then clean (some assistant)
    else issue path (codes "must be \"user\" or \"assistant\"")

-- `` `turns[${index}]` ``
abbrev pub turn_base : ℕ → Text
turn_base index = codes "turns[" ++ decimal index ++ codes "]"

abbrev pub turn_fields : Value → Text → Checked TurnPayload
turn_fields value base =
    let client_turn_id =
      expect_string (field (codes "client_turn_id") value) (base ++ codes ".client_turn_id") true in
    let speaker_raw =
      expect_string (field (codes "speaker") value) (base ++ codes ".speaker") true in
    let text = expect_string (field (codes "text") value) (base ++ codes ".text") true in
    let speaker = speaker_of speaker_raw.value (base ++ codes ".speaker") in
    let captured_at =
      expect_optional_string (field (codes "captured_at") value) (base ++ codes ".captured_at") in
    let sequence =
      expect_optional_number (field (codes "sequence") value) (base ++ codes ".sequence") in
    let parent =
      expect_optional_string (field (codes "parent_client_turn_id") value)
        (base ++ codes ".parent_client_turn_id") in
    let message_type =
      expect_optional_string (field (codes "message_type") value) (base ++ codes ".message_type") in
    let topic = expect_optional_string (field (codes "topic") value) (base ++ codes ".topic") in
    record {
      value = do
        id ← client_turn_id.value
        by ← speaker.value
        body ← text.value
        some (record {
          client_turn_id = id;
          speaker = by;
          text = body;
          captured_at = captured_at.value;
          sequence = sequence.value;
          parent_client_turn_id = parent.value;
          message_type = message_type.value;
          topic = topic.value;
        });
      issues = joined (
          client_turn_id.issues ∷ speaker_raw.issues ∷ text.issues ∷ speaker.issues
          ∷ captured_at.issues ∷ sequence.issues ∷ parent.issues ∷ message_type.issues
          ∷ topic.issues ∷ []);
    }

-- `parseTurn`
unfoldable pub parse_turn : Value → ℕ → Checked TurnPayload
unfolding object_or
parse_turn value index = object_or value (turn_base index) (turn_fields value (turn_base index))

abbrev pub with_turn : Option TurnPayload → List TurnPayload → List TurnPayload
with_turn none turns = turns
with_turn (some turn) turns = turn ∷ turns

-- The loop over `input.turns`: the turns that were parsed, and the issues.
unfoldable pub parse_turns : ℕ → List Value → List TurnPayload × List ValidationIssue
unfolding parse_turn
parse_turns index [] = ([], [])
parse_turns index (v ∷ vs) =
    let turn = parse_turn v index in
    let (turns, issues) = parse_turns (suc index) vs in
    (with_turn turn.value turns, turn.issues ++ issues)

-- The elements of the array `input.turns`.
unfoldable pub array_turns : List Value → List TurnPayload × List ValidationIssue
unfolding parse_turns
array_turns [] =
    let empty : Checked TurnPayload = issue (codes "turns") (codes "must be a non-empty array") in
    ([], empty.issues)
array_turns (v ∷ vs) = parse_turns 0 (v ∷ vs)

-- What the source does with `input.turns`.
unfoldable pub checked_turns : Value → List TurnPayload × List ValidationIssue
unfolding array_turns
checked_turns (array vs) = array_turns (elements vs)
checked_turns v =
    let other : Checked TurnPayload = issue (codes "turns") (codes "must be an array") in
    ([], other.issues)

-- `issues.length > 0 || !conversation || !capture || turns.length === 0`
unfoldable pub upload_of :
    List ValidationIssue
    → Option ConversationMetadata
    → Option CaptureMetadata
    → List TurnPayload
    → Validated UploadRequest
upload_of [] (some conversation) (some capture) (turn ∷ turns) =
    well_formed (record { conversation = conversation; capture = capture; turns = turn ∷ turns })
upload_of issues conversation capture turns = malformed issues

-- `parseUploadRequest`
unfoldable pub parse_upload_request : Value → Validated UploadRequest
unfolding parse_conversation parse_capture checked_turns upload_of
parse_upload_request input =
    let conversation = parse_conversation (field (codes "conversation") input) in
    let capture = parse_capture (field (codes "capture") input) in
    let (turns, turn_issues) = checked_turns (field (codes "turns") input) in
    let whole : Checked UploadRequest = issue [] (codes "must be an object") in
    if is_plain_object input
    then upload_of (joined (conversation.issues ∷ capture.issues ∷ turn_issues ∷ []))
        conversation.value capture.value turns
    else malformed whole.issues
