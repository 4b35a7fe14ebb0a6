-- ===== src/Worker/Router/Records.antt =====
-- The reads of apps/worker/src/db/artifacts.ts: `rowToRecord`, `conversationExists` and
-- `listArtifactsForConversation`.
use newell_ai.Common.{Text, text_eq, none, some, List, map, filter, Ordering}
use newell_ai.Common.Comparing.{not_after, then_by}
use newell_ai.Common.Keys.{text_order, text_cmp}
use newell_ai.Common.Sorting.{sort}
use newell_ai.Contracts.{ArtifactRecord}
use newell_ai.Idb.{get}
use newell_ai.Worker.Artifacts.{Outcome, returned, thrown, not_found}
use newell_ai.Worker.Db.{ArtifactRow, WorkerDb, conversation_key}

-- `rowToRecord`
unfoldable pub artifact_record : ArtifactRow → ArtifactRecord
artifact_record r = record {
  artifact_id = r.artifact_id;
  client_artifact_id = r.client_artifact_id;
  conversation_id = r.conversation_id;
  turn_id = r.turn_id;
  client_turn_id = r.client_turn_id;
  linkage_status = r.linkage_status;
  direction = r.direction;
  artifact_type = r.artifact_type;
  image_provenance = r.image_provenance;
  original_filename = r.original_filename;
  mime_type = r.mime_type;
  byte_size = r.byte_size;
  checksum = r.checksum;
  source_key = r.source_key;
  storage_backend = r.storage_backend;
  storage_location = r.storage_location;
  capture_status = r.capture_status;
  parent_artifact_id = r.parent_artifact_id;
  capture_client = r.capture_client;
  capture_client_version = r.capture_client_version;
  surface = r.surface;
  captured_at = r.captured_at;
  created_at = r.created_at;
}

-- `ORDER BY created_at ASC, artifact_id ASC`
unfoldable pub artifact_read_order : ArtifactRow → ArtifactRow → Ordering
unfolding text_cmp
artifact_read_order =
    then_by (λ (a b : ArtifactRow). text_cmp a.created_at b.created_at)
      (λ (a b : ArtifactRow). text_cmp a.artifact_id b.artifact_id)

-- `listArtifactsForConversation`
unfoldable pub list_artifacts_for_conversation : WorkerDb → Text → List ArtifactRecord
unfolding artifact_record artifact_read_order sort filter
list_artifacts_for_conversation db id = map artifact_record (
    sort (λ a b. not_after (artifact_read_order a b))
      (filter (λ (a : ArtifactRow). text_eq a.conversation_id id) db.artifacts))

-- The body of `handleListConversationArtifacts`, behind the test of `conversationExists`.
unfoldable pub list_conversation_artifacts : WorkerDb → Text → Outcome (List ArtifactRecord)
unfolding list_artifacts_for_conversation
list_conversation_artifacts db id = elim (get conversation_key id db.conversations) [
  | none ↦ thrown not_found
  | some c ↦ returned (list_artifacts_for_conversation db id)
]
