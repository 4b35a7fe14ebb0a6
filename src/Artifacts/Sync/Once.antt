-- ===== src/Artifacts/Sync/Once.antt =====
-- `syncArtifactOnce` of apps/extension/src/artifacts/sync.ts. What the server answers is a function
-- of the request; what other handlers commit while a request is under way is the function `others`
-- of the request. `sanitizeArtifactFetchError` is the text of `sanitizeFetchError` under another
-- name.
use newell_ai.Common.{
  ℕ, ◌+◌, max, Text, codes, strip_slash, Option, none, some, true, false, List, [], ◌∷◌, ◌++◌, ◌==◌,
}
use newell_ai.Contracts.{CaptureMetadata, ArtifactDirection, ArtifactType, image}
use newell_ai.Token.{TokenValidation, valid, invalid, invalid_token_message, validate_capture_token}
use newell_ai.Queue.Sync.Sanitize.{Thrown, sanitize_fetch_error}
use newell_ai.Artifacts.Types.{
  ArtifactQueueEnvelope, ArtifactDb, ArtifactSyncOutcome, pending, pending_download,
  artifact_backoff_ms,
}
use newell_ai.Artifacts.Queue.{set_artifact_status, has_bytes, size_beside}
use newell_ai.Artifacts.Sync.Select.{select_due_artifact, hold_artifact_auth_blocked}
use newell_ai.Artifacts.Sync.Respond.{
  nothing, last_error_only, patch_envelope, dequeue_artifact, retry_or_dead, auth_refused,
}

pub record ArtifactSyncConfig : Type 0 where
  pub base_url : Text
  pub token : Text

-- The body of the metadata request: the fields of `ArtifactCreateRequest`, with the provenance as
-- the message gave it, since nothing on the way tests it.
pub record CreateBody : Type 0 where
  pub client_artifact_id : Text
  pub conversation_id : Text
  pub user_id : Text
  pub client_turn_id : Text
  pub direction : ArtifactDirection
  pub artifact_type : ArtifactType
  pub mime_type : Text
  pub declared_sha256 : Option Text
  pub declared_byte_size : Option ℕ
  pub original_filename : Option Text
  pub image_provenance : Option Text
  pub parent_artifact_id : Option Text
  pub source_key : Option Text
  pub captured_at : Option Text
  pub capture : CaptureMetadata

-- The arguments of `fetchFn` that vary.
pub data ArtifactHttpRequest : Type 0 where
  post_metadata : (url authorization : Text) → CreateBody → ArtifactHttpRequest
  put_content : (url authorization content_type : Text) → List ℕ → ArtifactHttpRequest

-- `await postRes.json()`: the member `artifact_id` of the value, or what was thrown.
pub data AcceptBody : Type 0 where
  parsed : Option Text → AcceptBody
  unreadable : Thrown → AcceptBody

pub data ArtifactFetchResult : Type 0 where
  responded : (status : ℕ) → AcceptBody → ArtifactFetchResult
  thrown : Thrown → ArtifactFetchResult

-- The outcome, the database behind the call, and the requests in the order they were sent.
pub record ArtifactSyncRun : Type 0 where
  pub outcome : ArtifactSyncOutcome
  pub db : ArtifactDb
  pub sent : List ArtifactHttpRequest

abbrev pub finish : ArtifactSyncOutcome × ArtifactDb → List ArtifactHttpRequest → ArtifactSyncRun
finish r sent = record { outcome = r.0; db = r.1; sent = sent }

unfoldable pub create_body : ArtifactQueueEnvelope → CreateBody
create_body item = record {
  client_artifact_id = item.client_artifact_id;
  conversation_id = item.conversation_id;
  user_id = item.user_id;
  client_turn_id = item.client_turn_id;
  direction = item.direction;
  artifact_type = image;
  mime_type = item.mime_type;
  declared_sha256 = item.declared_sha256;
  declared_byte_size = size_beside item.declared_sha256 item.declared_byte_size;
  original_filename = item.original_filename;
  image_provenance = item.image_provenance;
  parent_artifact_id = none;
  source_key = item.source_key;
  captured_at = item.captured_at;
  capture = item.capture;
}

-- `${artifactId}`
abbrev pub id_text : Option Text → Text
id_text none = codes "undefined"
id_text (some id) = id

abbrev pub bytes_of : Option (List ℕ) → List ℕ
bytes_of none = []
bytes_of (some b) = b

abbrev pub post_request : ArtifactSyncConfig → ArtifactQueueEnvelope → ArtifactHttpRequest
post_request config item =
    post_metadata (config.base_url ++ codes "/v1/artifacts") (codes "Bearer " ++ config.token)
      (create_body item)

abbrev pub put_request :
    ArtifactSyncConfig → ArtifactQueueEnvelope → Option Text → ArtifactHttpRequest
put_request config item artifact_id =
    put_content
      (config.base_url ++ codes "/v1/artifacts/" ++ id_text artifact_id ++ codes "/content")
      (codes "Bearer " ++ config.token) item.mime_type (bytes_of item.bytes)

-- The branch for a token that cannot be a header.
unfoldable pub hold_artifacts_for_token : ArtifactDb → ArtifactSyncRun
unfolding hold_artifact_auth_blocked set_artifact_status
hold_artifacts_for_token db =
    let (blocked, held) = hold_artifact_auth_blocked db in
    record {
      outcome = record nothing { auth_blocked = blocked; idle = blocked == 0 };
      db = set_artifact_status (last_error_only invalid_token_message) held;
      sent = [];
    }

module _ (fetch : ArtifactHttpRequest → ArtifactFetchResult) (now clock : ℕ)
    (others : ArtifactHttpRequest → ArtifactDb → ArtifactDb) where
  -- The `catch` clause.
  abbrev pub caught : ArtifactQueueEnvelope → Thrown → ArtifactDb → ArtifactSyncOutcome × ArtifactDb
  caught item e db = retry_or_dead clock item (sanitize_fetch_error e) now db

  -- The branch for a record without bytes.
  unfoldable pub wait_for_bytes :
      ArtifactQueueEnvelope → ArtifactDb → ArtifactSyncOutcome × ArtifactDb
  unfolding patch_envelope
  wait_for_bytes item db = (
    record nothing { retried = 1 },
    patch_envelope item.queue_id
        (λ e. record e {
          state = pending;
          byte_status = pending_download;
          next_attempt_at = now + artifact_backoff_ms (max 1 item.attempts);
          attempts = item.attempts;
        })
        db,
  )

  abbrev pub delivered : ArtifactQueueEnvelope → ArtifactDb → ArtifactSyncOutcome × ArtifactDb
  delivered item db = (
    record nothing { delivered = 1 },
    set_artifact_status (record { last_error = some none; last_success_at = some (some now) })
        (dequeue_artifact item.queue_id db),
  )

  abbrev pub or_go_on :
      Option (ArtifactSyncOutcome × ArtifactDb)
      → ArtifactSyncOutcome × ArtifactDb
      → ArtifactSyncOutcome × ArtifactDb
  or_go_on none r = r
  or_go_on (some early) r = early

  -- Phase 2 behind the answer to the `PUT`.
  unfoldable pub finish_content :
      ArtifactFetchResult → ArtifactQueueEnvelope → ArtifactDb → ArtifactSyncOutcome × ArtifactDb
  unfolding auth_refused dequeue_artifact set_artifact_status retry_or_dead
  finish_content (thrown e) item db = caught item e db
  finish_content (responded status body) item db =
      or_go_on (auth_refused clock item status now db) (delivered item db)

  -- What follows phase 1.
  unfoldable pub send_content :
      ArtifactSyncConfig
      → ArtifactQueueEnvelope
      → Option Text
      → ArtifactDb
      → List ArtifactHttpRequest
      → ArtifactSyncRun
  unfolding finish_content wait_for_bytes
  send_content config item artifact_id db sent =
      let request = put_request config item artifact_id in
      elim (has_bytes item.bytes) [
        | false ↦ finish (wait_for_bytes item db) sent
        | true ↦
            finish (finish_content (fetch request) item (others request db)) (sent ++ request ∷ [])
      ]

  -- Phase 1 behind an answer that was accepted.
  unfoldable pub note_artifact_id :
      ArtifactSyncConfig
      → ArtifactQueueEnvelope
      → AcceptBody
      → ArtifactDb
      → List ArtifactHttpRequest
      → ArtifactSyncRun
  unfolding send_content patch_envelope
  note_artifact_id config item (unreadable e) db sent = finish (caught item e db) sent
  note_artifact_id config item (parsed id) db sent =
      send_content config item id
        (patch_envelope item.queue_id (λ e. record e { artifact_id = id }) db) sent

  -- Phase 1 behind the answer to the `POST`.
  unfoldable pub finish_metadata :
      ArtifactSyncConfig
      → ArtifactQueueEnvelope
      → ArtifactFetchResult
      → ArtifactDb
      → List ArtifactHttpRequest
      → ArtifactSyncRun
  unfolding note_artifact_id auth_refused retry_or_dead
  finish_metadata config item (thrown e) db sent = finish (caught item e db) sent
  finish_metadata config item (responded status body) db sent =
      elim (auth_refused clock item status now db) [
        | none ↦ note_artifact_id config item body db sent
        | some early ↦ finish early sent
      ]

  -- The `try` block.
  unfoldable pub transfer :
      ArtifactSyncConfig → ArtifactQueueEnvelope → ArtifactDb → ArtifactSyncRun
  unfolding finish_metadata send_content create_body
  transfer config item db = elim (item.artifact_id) [
    | some id ↦ send_content config item (some id) db []
    | none ↦
        let request = post_request config item in
        finish_metadata config item (fetch request) (others request db) (request ∷ [])
  ]

  unfoldable pub sync_selected :
      ArtifactSyncConfig → Option ArtifactQueueEnvelope → ArtifactDb → ArtifactSyncRun
  unfolding transfer
  sync_selected config none db = record {
    outcome = record nothing { idle = true };
    db = db;
    sent = [];
  }
  sync_selected config (some item) db = transfer config item db

  unfoldable pub sync_checked : TokenValidation → ArtifactSyncConfig → ArtifactDb → ArtifactSyncRun
  unfolding hold_artifacts_for_token sync_selected select_due_artifact
  sync_checked (invalid message) config db = hold_artifacts_for_token db
  sync_checked (valid token) config db =
      let (item, queue) = select_due_artifact now db.queue in
      sync_selected (record { base_url = strip_slash config.base_url; token = token }) item
        (record db { queue = queue })

  -- `syncArtifactOnce`
  unfoldable pub sync_artifact_once : ArtifactDb → ArtifactSyncConfig → ArtifactSyncRun
  unfolding sync_checked
  sync_artifact_once db config = sync_checked (validate_capture_token config.token) config db
