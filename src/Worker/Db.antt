-- ===== src/Worker/Db.antt =====
-- The tables of migrations/0001_init.sql and migrations/0002_artifacts.sql. A table is the list of
-- its rows in the order of the key that the statements look up; each key is unique by the schema.
-- A column that may be NULL is an `Option`.
use newell_ai.Common.{ℕ, Text, Option, none, some, Bool, true, false, List}
use newell_ai.Common.Int.{ℤ}
use newell_ai.Common.Keys.{KeyOrder, text_order, pair_order}
use newell_ai.Contracts.{
  Speaker, ArtifactDirection, ArtifactType, ImageProvenance, ArtifactLinkageStatus,
  ArtifactCaptureStatus,
}
use newell_ai.Idb.{put, get}

pub record UserRow : Type 0 where
  pub user_id : Text
  pub created_at : Text

pub record ConversationRow : Type 0 where
  pub conversation_id : Text
  pub user_id : Text
  pub title : Option Text
  pub source_model : Option Text
  pub started_at : Option Text
  pub created_at : Text

pub record TurnRow : Type 0 where
  pub turn_id : Text
  pub conversation_id : Text
  pub client_turn_id : Text
  pub speaker : Speaker
  pub text : Text
  pub captured_at : Option Text
  pub sequence : Option ℤ
  pub parent_client_turn_id : Option Text
  pub message_type : Option Text
  pub topic : Option Text
  pub capture_client : Text
  pub capture_client_version : Option Text
  pub surface : Option Text
  pub captured_batch_id : Option Text
  pub created_at : Text

pub record ArtifactRow : Type 0 where
  pub artifact_id : Text
  pub client_artifact_id : Text
  pub conversation_id : Text
  pub turn_id : Option Text
  pub client_turn_id : Text
  pub linkage_status : ArtifactLinkageStatus
  pub direction : ArtifactDirection
  pub artifact_type : ArtifactType
  pub image_provenance : Option ImageProvenance
  pub original_filename : Option Text
  pub mime_type : Text
  pub byte_size : Option ℕ
  pub checksum : Option Text
  pub source_key : Option Text
  pub storage_backend : Option Text
  pub storage_location : Option Text
  pub capture_status : ArtifactCaptureStatus
  pub parent_artifact_id : Option Text
  pub capture_client : Text
  pub capture_client_version : Option Text
  pub surface : Option Text
  pub captured_at : Option Text
  pub created_at : Text

pub record WorkerDb : Type 0 where
  pub users : List UserRow
  pub conversations : List ConversationRow
  pub turns : List TurnRow
  pub artifacts : List ArtifactRow

abbrev pub user_key : UserRow → Text
user_key r = r.user_id

abbrev pub conversation_key : ConversationRow → Text
conversation_key r = r.conversation_id

abbrev pub turn_key : TurnRow → Text × Text
turn_key r = (r.conversation_id, r.client_turn_id)

abbrev pub artifact_row_key : ArtifactRow → Text × Text
artifact_row_key r = (r.conversation_id, r.client_artifact_id)

module _ {K A : Type 0} ⦃o : KeyOrder K⦄ (key : A → K) where
  -- `INSERT OR IGNORE` and `INSERT … ON CONFLICT … DO NOTHING`: the number of changed rows, and
  -- the table.
  unfoldable pub insert_new : A → List A → Bool × List A
  insert_new row table = elim (get key (key row) table) [
    | some old ↦ (false, table)
    | none ↦ (true, put key row table)
  ]
