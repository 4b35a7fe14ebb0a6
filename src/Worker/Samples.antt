-- ===== src/Worker/Samples.antt =====
-- An upload and its JSON, for the runs in the modules named Tests.
use newell_ai.Common.{codes, none, some, [], ◌∷◌}
use newell_ai.Common.Int.{pos}
use newell_ai.Contracts.{UploadRequest, user}
use newell_ai.Value.{Value, Items, number, string, array, object, no_props, prop}

abbrev pub conversation_body : Value
conversation_body = object (
    prop (codes "conversation_id") (string (codes "c"))
      (prop (codes "user_id") (string (codes "u")) no_props))

abbrev pub capture_body : Value
capture_body = object (prop (codes "capture_client") (string (codes "x")) no_props)

abbrev pub turn_body : Value
turn_body = object (
    prop (codes "client_turn_id") (string (codes "t")) (
      prop (codes "speaker") (string (codes "user")) (
        prop (codes "text") (string (codes "hi"))
          (prop (codes "sequence") (number (pos 2)) no_props))))

abbrev pub body_with : Items → Value
body_with turns = object (
    prop (codes "conversation") conversation_body
      (prop (codes "capture") capture_body (prop (codes "turns") (array turns) no_props)))

abbrev pub upload : UploadRequest
upload = record {
  conversation = record {
    conversation_id = codes "c";
    user_id = codes "u";
    title = none;
    source_model = none;
    started_at = none;
  };
  capture = record {
    capture_client = codes "x";
    capture_client_version = none;
    surface = none;
    captured_batch_id = none;
  };
  turns =
      (record {
        client_turn_id = codes "t";
        speaker = user;
        text = codes "hi";
        captured_at = none;
        sequence = some (pos 2);
        parent_client_turn_id = none;
        message_type = none;
        topic = none;
      })
      ∷ [];
}
