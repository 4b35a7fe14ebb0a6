-- ===== src/Worker/Turns.antt =====
-- `persistUpload` of apps/worker/src/db/turns.ts. The random ids are a function of the turn's place
-- in the upload; a random id that is taken already is not modelled.
pub mod Laws
pub mod Stored
mod Tests
use newell_ai.Common.{
  ℕ, zero, suc, ◌+◌, Text, Option, none, some, Bool, List, [], ◌∷◌, if◌then◌else◌,
}
use newell_ai.Common.Keys.{text_order, pair_order}
use newell_ai.Contracts.{TurnPayload, ConversationMetadata, CaptureMetadata, UploadRequest}
use newell_ai.Worker.Db.{
  UserRow, ConversationRow, TurnRow, WorkerDb, user_key, conversation_key, turn_key, insert_new,
}

pub record PersistResult : Type 0 where
  pub accepted : ℕ
  pub duplicate : ℕ

pub data PersistError : Type 0 where
  internal_error : PersistError

-- `INSERT OR IGNORE INTO users …` and `… INTO conversations …`
unfoldable pub insert_conversation : ConversationMetadata → Text → WorkerDb → WorkerDb
unfolding insert_new
insert_conversation c now db = record db {
  users = (insert_new user_key (record { user_id = c.user_id; created_at = now }) db.users).1;
  conversations =
      (insert_new conversation_key
        (record {
          conversation_id = c.conversation_id;
          user_id = c.user_id;
          title = c.title;
          source_model = c.source_model;
          started_at = c.started_at;
          created_at = now;
        })
        db.conversations).1;
}

unfoldable pub turn_row : UploadRequest → Text → Text → TurnPayload → TurnRow
turn_row upload now turn_uuid turn = record {
  turn_id = turn_uuid;
  conversation_id = upload.conversation.conversation_id;
  client_turn_id = turn.client_turn_id;
  speaker = turn.speaker;
  text = turn.text;
  captured_at = turn.captured_at;
  sequence = turn.sequence;
  parent_client_turn_id = turn.parent_client_turn_id;
  message_type = turn.message_type;
  topic = turn.topic;
  capture_client = upload.capture.capture_client;
  capture_client_version = upload.capture.capture_client_version;
  surface = upload.capture.surface;
  captured_batch_id = upload.capture.captured_batch_id;
  created_at = now;
}

abbrev pub count_change : Bool → PersistResult → PersistResult
count_change inserted r =
    if inserted
    then record r { accepted = r.accepted + 1 }
    else record r { duplicate = r.duplicate + 1 }

-- The loop over the turns.
unfoldable pub insert_turns :
    UploadRequest
    → Text
    → (ℕ → Text)
    → ℕ
    → List TurnPayload
    → PersistResult
    → List TurnRow
    → PersistResult × List TurnRow
unfolding insert_new turn_row
insert_turns upload now uuids n [] r table = (r, table)
insert_turns upload now uuids n (turn ∷ turns) r table =
    let (inserted, table') = insert_new turn_key (turn_row upload now (uuids n) turn) table in
    insert_turns upload now uuids (suc n) turns (count_change inserted r) table'

-- `persistUpload` with a database.
unfoldable pub persist : WorkerDb → UploadRequest → Text → (ℕ → Text) → PersistResult × WorkerDb
unfolding insert_conversation insert_turns
persist db upload now uuids =
    let db' = insert_conversation upload.conversation now db in
    let (r, turns) =
      insert_turns upload now uuids 0 upload.turns (record { accepted = 0; duplicate = 0 })
        db'.turns in
    (r, record db' { turns = turns })

pub data Persisted : Type 0 where
  failed : PersistError → Persisted
  persisted : PersistResult → WorkerDb → Persisted

-- `persistUpload`
unfoldable pub persist_upload : Option WorkerDb → UploadRequest → Text → (ℕ → Text) → Persisted
unfolding persist
persist_upload none upload now uuids = failed internal_error
persist_upload (some db) upload now uuids =
    let (r, db') = persist db upload now uuids in persisted r db'
