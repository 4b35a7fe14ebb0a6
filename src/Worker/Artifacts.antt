-- ===== src/Worker/Artifacts.antt =====
-- apps/worker/src/db/artifacts.ts. Random ids and times are arguments; a thrown `HttpError` is
-- `thrown` with its code.
pub mod Content
pub mod Laws
mod Tests
pub mod Safety
pub mod Reads
use newell_ai.Common.{
  ℕ, Text, codes, text_eq, Option, none, some, Bool, true, false, not, ◌&&◌, List, [], ◌∷◌, map,
  any, if◌then◌else◌,
}
use newell_ai.Common.Keys.{text_order, pair_order}
use newell_ai.Idb.{put, get}
use newell_ai.Contracts.{
  ArtifactCreateRequest, ArtifactAcceptResponse, ArtifactLinkageStatus, unresolved, resolved,
  ArtifactCaptureStatus, metadata_discovered, pending_download, stored, failed_download, rejected,
  conflict,
}
use newell_ai.Worker.Db.{
  UserRow, ConversationRow, TurnRow, ArtifactRow, WorkerDb, user_key, conversation_key, turn_key,
  artifact_row_key, insert_new,
}

-- `ErrorCode` of apps/worker/src/errors.ts
pub data ErrorCode : Type 0 where
  unauthorized forbidden not_found method_not_allowed invalid_json validation_error conflict_error
        integrity_error internal_error :
      ErrorCode

pub data Outcome (A : Type 0) : Type 0 where
  returned : A → Outcome A
  thrown : ErrorCode → Outcome A

abbrev pub image_mime_allowlist : List Text
image_mime_allowlist = codes "image/png" ∷ codes "image/jpeg" ∷ codes "image/webp" ∷ []

-- `isAllowedImageMime`
unfoldable pub is_allowed_image_mime : Text → Bool
is_allowed_image_mime mime = any (text_eq mime) image_mime_allowlist

-- `ensureConversation`
unfoldable pub ensure_conversation : Text → Text → Text → WorkerDb → WorkerDb
unfolding insert_new
ensure_conversation conversation_id user_id now db = record db {
  users = (insert_new user_key (record { user_id = user_id; created_at = now }) db.users).1;
  conversations =
      (insert_new conversation_key
        (record {
          conversation_id = conversation_id;
          user_id = user_id;
          title = none;
          source_model = none;
          started_at = none;
          created_at = now;
        })
        db.conversations).1;
}

abbrev pub turn_id_of : Option TurnRow → Option Text
turn_id_of none = none
turn_id_of (some r) = some r.turn_id

-- `resolveTurnId`
unfoldable pub resolve_turn_id : WorkerDb → Text → Text → Option Text
resolve_turn_id db conversation_id client_turn_id =
    turn_id_of (get turn_key (conversation_id, client_turn_id) db.turns)

-- `a !== null && b !== null && a !== b`
abbrev pub differ : Option Text → Option Text → Bool
differ none b = false
differ (some a) none = false
differ (some a) (some b) = not (text_eq a b)

abbrev pub linkage_of : Option Text → ArtifactLinkageStatus
linkage_of none = unresolved
linkage_of (some id) = resolved

abbrev pub first_status : Option Text → Option ℕ → ArtifactCaptureStatus
first_status none size = metadata_discovered
first_status (some sha) none = metadata_discovered
first_status (some sha) (some size) = pending_download

unfoldable pub new_row : ArtifactCreateRequest → Option Text → Text → Text → ArtifactRow
new_row request turn_id artifact_uuid now = record {
  artifact_id = artifact_uuid;
  client_artifact_id = request.client_artifact_id;
  conversation_id = request.conversation_id;
  turn_id = turn_id;
  client_turn_id = request.client_turn_id;
  linkage_status = linkage_of turn_id;
  direction = request.direction;
  artifact_type = request.artifact_type;
  image_provenance = request.image_provenance;
  original_filename = request.original_filename;
  mime_type = request.mime_type;
  byte_size = request.declared_byte_size;
  checksum = request.declared_sha256;
  source_key = request.source_key;
  storage_backend = none;
  storage_location = none;
  capture_status = first_status request.declared_sha256 request.declared_byte_size;
  parent_artifact_id = request.parent_artifact_id;
  capture_client = request.capture.capture_client;
  capture_client_version = request.capture.capture_client_version;
  surface = request.capture.surface;
  captured_at = request.captured_at;
  created_at = now;
}

abbrev pub response_of : ArtifactRow → Bool → Text → ArtifactAcceptResponse
response_of row duplicate now = record {
  artifact_id = row.artifact_id;
  client_artifact_id = row.client_artifact_id;
  conversation_id = row.conversation_id;
  capture_status = row.capture_status;
  linkage_status = row.linkage_status;
  duplicate = duplicate;
  server_time = now;
}

-- `createOrGetArtifact` with a database; the tables behind it stay changed when it throws.
unfoldable pub create_or_get_artifact :
    WorkerDb → ArtifactCreateRequest → Text → Text → Outcome ArtifactAcceptResponse × WorkerDb
unfolding ensure_conversation resolve_turn_id new_row
create_or_get_artifact db0 request artifact_uuid now =
    let db = ensure_conversation request.conversation_id request.user_id now db0 in
    elim (get artifact_row_key (request.conversation_id, request.client_artifact_id) db.artifacts) [
      | some existing ↦
          if differ existing.checksum request.declared_sha256
          then (thrown conflict_error, db)
          else (returned (response_of existing true now), db)
      | none ↦
          let turn_id = resolve_turn_id db request.conversation_id request.client_turn_id in
          let row = new_row request turn_id artifact_uuid now in
          (
            returned (response_of row false now),
            record db { artifacts = put artifact_row_key row db.artifacts },
          )
    ]

-- `SELECT * FROM artifacts WHERE artifact_id = ?` of `getArtifactById`
unfoldable pub find_artifact : Text → List ArtifactRow → Option ArtifactRow
find_artifact id [] = none
find_artifact id (r ∷ table) =
    let later = find_artifact id table in if text_eq r.artifact_id id then some r else later

-- `UPDATE artifacts SET … WHERE artifact_id = ?`
unfoldable pub update_artifact :
    Text → (ArtifactRow → ArtifactRow) → List ArtifactRow → List ArtifactRow
update_artifact id change table =
    map (λ (r : ArtifactRow). if text_eq r.artifact_id id then change r else r) table

abbrev pub is_stored : ArtifactCaptureStatus → Bool
is_stored metadata_discovered = false
is_stored pending_download = false
is_stored stored = true
is_stored failed_download = false
is_stored rejected = false
is_stored conflict = false

pub record FinalizeInput : Type 0 where
  pub artifact_id : Text
  pub checksum : Text
  pub byte_size : ℕ
  pub storage_backend : Text
  pub storage_location : Text
  pub mime_type : Text

abbrev pub finalized : FinalizeInput → ArtifactRow → ArtifactRow
finalized input r = record r {
  checksum = some input.checksum;
  byte_size = some input.byte_size;
  storage_backend = some input.storage_backend;
  storage_location = some input.storage_location;
  mime_type = input.mime_type;
  capture_status = stored;
}

abbrev pub reread : Option ArtifactRow → Outcome ArtifactRow
reread none = thrown internal_error
reread (some r) = returned r

-- `finalizeArtifactStored`
unfoldable pub finalize_artifact_stored : WorkerDb → FinalizeInput → Outcome ArtifactRow × WorkerDb
unfolding find_artifact update_artifact
finalize_artifact_stored db input = elim (find_artifact input.artifact_id db.artifacts) [
  | none ↦ (thrown not_found, db)
  | some existing ↦
      if is_stored existing.capture_status
      then (
        if differ existing.checksum (some input.checksum)
            then thrown conflict_error
            else returned existing,
        db,
      )
      else let after = update_artifact input.artifact_id (finalized input) db.artifacts in
        (reread (find_artifact input.artifact_id after), record db { artifacts = after })
]

-- `markArtifactConflict`
unfoldable pub mark_artifact_conflict : Text → WorkerDb → WorkerDb
unfolding update_artifact
mark_artifact_conflict id db = record db {
  artifacts =
      update_artifact id (λ (r : ArtifactRow). record r { capture_status = conflict }) db.artifacts;
}
