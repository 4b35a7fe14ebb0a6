-- ===== src/Worker/Turns/Tests.antt =====
-- Uploads on small data, and each theorem at a concrete input.
use newell_ai.Common.{ℕ, Text, codes, none, some, [], ◌∷◌, ◌≡◌, refl}
use newell_ai.Common.Int.{pos}
use newell_ai.Common.Keys.{text_order, pair_order, text_cmp, pair_cmp}
use newell_ai.Idb.{get, put}
use newell_ai.Contracts.{TurnPayload, CaptureMetadata, UploadRequest, user}
use newell_ai.Worker.Db.{TurnRow, WorkerDb, turn_key}
use newell_ai.Worker.Turns.{persist, PersistResult, turn_row}
use newell_ai.Worker.Turns.Laws.{persist_again}

abbrev empty_db : WorkerDb
empty_db = record { users = []; conversations = []; turns = []; artifacts = [] }

abbrev capture : CaptureMetadata
capture = record {
  capture_client = codes "chrome-extension";
  capture_client_version = none;
  surface = none;
  captured_batch_id = none;
}

abbrev turn : Text → TurnPayload
turn id = record {
  client_turn_id = id;
  speaker = user;
  text = codes "hi";
  captured_at = none;
  sequence = some (pos 1);
  parent_client_turn_id = none;
  message_type = none;
  topic = none;
}

abbrev upload : UploadRequest
upload = record {
  conversation = record {
    conversation_id = codes "c";
    user_id = codes "u";
    title = none;
    source_model = none;
    started_at = none;
  };
  capture = capture;
  turns = turn (codes "a") ∷ turn (codes "b") ∷ turn (codes "a") ∷ [];
}

abbrev uuids : ℕ → Text
uuids n = n ∷ []

abbrev uploaded : PersistResult × WorkerDb
uploaded = persist empty_db upload (codes "now") uuids

counts_duplicates : uploaded.0 ≡ record { accepted = 2; duplicate = 1 }
unfolding persist get put pair_cmp text_cmp codes
counts_duplicates = refl

abbrev first_row : TurnRow
first_row = turn_row upload (codes "now") (uuids 0) (turn (codes "a"))

first_row_there : get turn_key (codes "c", codes "a") uploaded.1.turns ≡ some first_row
unfolding get persist put pair_cmp text_cmp codes
first_row_there = refl

persist_again_example :
    persist uploaded.1 upload (codes "later") uuids
    ≡ (record { accepted = 0; duplicate = 3 }, uploaded.1)
persist_again_example = persist_again empty_db upload (codes "now") uuids (codes "later") uuids
