-- ===== src/Worker/Router.antt =====
-- The handlers of apps/worker/src/routes/v1 and the routing of apps/worker/src/index.ts. Times, the
-- random ids, LIKE, the storage and the decoding of a path's part are parameters. A handler takes
-- the state of the worker and gives it back, also where it throws. The database is bound.
pub mod State
pub mod Paths
pub mod Records
pub mod Laws
pub mod Blind
pub mod Ingest
mod Tests
use newell_ai.Common.{
  ℕ, ◌*◌, Text, codes, text_eq, trim, Option, none, some, Bool, true, false, not, ◌&&◌, ◌||◌, List,
  [], ◌∷◌, length, ltb, leb, ◌==◌, if◌then◌else◌,
}
use newell_ai.Contracts.{
  UploadRequest, ConversationSummary, TurnRecord, SearchHit, SystemStatus, ArtifactCreateRequest,
  ArtifactAcceptResponse, ArtifactRecord,
}
use newell_ai.Value.{Value}
use newell_ai.Worker.Artifacts.{
  Outcome, returned, thrown, not_found, method_not_allowed, invalid_json, validation_error,
  create_or_get_artifact, find_artifact,
}
use newell_ai.Worker.Artifacts.Content.{
  ObjectStorage, StoredObject, ContentResponse, handle_put_artifact_content,
  handle_get_artifact_content,
}
use newell_ai.Worker.Auth.{
  AuthScope, capture_full, recall_read, SessionRecord, split_at, require_auth,
}
use newell_ai.Worker.Db.{WorkerDb, ArtifactRow}
use newell_ai.Worker.Http.{WorkerEnv, HttpRequest}
use newell_ai.Worker.Local.{PairReply, handle_dev_pair, handle_recall_session}
use newell_ai.Worker.Reads.{
  list_conversations, list_conversation_turns, search_turns, validate_search_query,
  parse_search_limit, parse_int,
}
use newell_ai.Worker.Reads.Status.{get_system_status}
use newell_ai.Worker.Router.State.{
  Draw, Platform, Reply, WorkerState, answer, artifact, artifact_accepted, artifact_bytes,
  artifact_content, artifact_max_bytes_of, conversation_artifacts, conversation_turns,
  conversations, default_max_bytes, hits, ingested, pairing, positive_bytes, session_cookie,
  system_status, too_large,
}
use newell_ai.Worker.Router.Paths.{
  Endpoint, to_turns, to_conversations, to_search, to_status, to_artifacts, nowhere, to_content,
  to_artifact, to_conversation_artifacts, to_conversation_turns, endpoint_of,
}
use newell_ai.Worker.Router.Records.{list_conversation_artifacts, artifact_record}
use newell_ai.Worker.Turns.{PersistResult, persist}
use newell_ai.Worker.Validate.{Validated, well_formed, malformed}
use newell_ai.Worker.Validate.Upload.{parse_upload_request}
use newell_ai.Worker.Validate.Artifact.{parse_artifact_create_request}

module _ {S : Type 0} (platform : Platform S) (env : WorkerEnv) (draw : Draw) where
  abbrev pub Handled : Type 0
  Handled = Outcome Reply × WorkerState S

  abbrev pub let_in :
      Outcome AuthScope × List SessionRecord → WorkerState S → (WorkerState S → Handled) → Handled
  let_in (thrown e, sessions) st next = (thrown e, record st { sessions = sessions })
  let_in (returned scope, sessions) st next = next (record st { sessions = sessions })

  -- The tests that each handler begins with, of the method and then of the token: `capture_full` is
  -- `requireCaptureApiToken`, and `recall_read` is `requireRecallRead`.
  unfoldable pub guarded :
      Text → AuthScope → HttpRequest → WorkerState S → (WorkerState S → Handled) → Handled
  unfolding require_auth
  guarded method required req st next =
      if not (text_eq req.method method)
      then (thrown method_not_allowed, st)
      else let_in
          (require_auth platform.digest platform.hash req.headers env.capture_api_token required
            draw.now_ms st.sessions)
          st next

  unfoldable pub ingest : Validated UploadRequest → WorkerState S → Handled
  unfolding persist
  ingest (malformed issues) st = (thrown validation_error, st)
  ingest (well_formed upload) st =
      let (r, db) = persist st.db upload draw.now draw.uuids in
      (returned (ingested r upload.conversation.conversation_id), record st { db = db })

  abbrev pub with_json : Option Value → WorkerState S → (Value → WorkerState S → Handled) → Handled
  with_json none st next = (thrown invalid_json, st)
  with_json (some v) st next = next v st

  -- `handleIngestTurns`
  unfoldable pub handle_ingest_turns : HttpRequest → WorkerState S → Handled
  unfolding guarded ingest parse_upload_request
  handle_ingest_turns req st =
      guarded (codes "POST") capture_full req st
        (λ s. with_json req.json s (λ v s'. ingest (parse_upload_request v) s'))

  unfoldable pub create : Validated ArtifactCreateRequest → WorkerState S → Handled
  unfolding create_or_get_artifact artifact_max_bytes_of
  create (malformed issues) st = (thrown validation_error, st)
  create (well_formed body) st =
      if too_large body.declared_byte_size (artifact_max_bytes_of env.artifact_size_limit)
      then (thrown validation_error, st)
      else let (r, db) = create_or_get_artifact st.db body draw.uuid draw.now in
        (answer artifact_accepted r, record st { db = db })

  -- `handleCreateArtifact`
  unfoldable pub handle_create_artifact : HttpRequest → WorkerState S → Handled
  unfolding guarded create parse_artifact_create_request
  handle_create_artifact req st =
      guarded (codes "POST") capture_full req st
        (λ s. with_json req.json s (λ v s'. create (parse_artifact_create_request v) s'))

  unfoldable pub put_artifact_bytes : HttpRequest → Text → WorkerState S → Handled
  unfolding handle_put_artifact_content artifact_max_bytes_of
  put_artifact_bytes req id st =
      let (r, db, store) =
        handle_put_artifact_content platform.storage platform.sha256
          (artifact_max_bytes_of env.artifact_size_limit) platform.backend draw.now st.db st.store
          id req.content_type req.bytes in
      (answer artifact_content r, record st { db = db; store = store })

  abbrev pub reading : (WorkerState S → Outcome Reply) → WorkerState S → Handled
  reading f st = (f st, st)

  -- A handler that only reads.
  unfoldable pub guarded_read :
      HttpRequest → WorkerState S → (WorkerState S → Outcome Reply) → Handled
  unfolding guarded
  guarded_read req st f = guarded (codes "GET") recall_read req st (reading f)

  abbrev pub found_record : Option ArtifactRow → Outcome Reply
  found_record none = thrown not_found
  found_record (some r) = returned (artifact (artifact_record r))

  abbrev pub search_with : WorkerDb → Outcome Text → Outcome ℕ → Outcome Reply
  search_with db (thrown e) limit = thrown e
  search_with db (returned query) (thrown e) = thrown e
  search_with db (returned query) (returned limit) =
      returned (hits query (search_turns platform.like platform.lower db query limit))

  abbrev pub decoded : Outcome Text → WorkerState S → (Text → Handled) → Handled
  decoded (thrown e) st next = (thrown e, st)
  decoded (returned id) st next = next id

  -- The routes behind the local ones.
  unfoldable pub handle_endpoint : Endpoint → HttpRequest → WorkerState S → Handled
  unfolding handle_ingest_turns handle_create_artifact put_artifact_bytes guarded guarded_read
      handle_get_artifact_content find_artifact artifact_record list_conversation_artifacts
      list_conversation_turns list_conversations search_turns validate_search_query
      parse_search_limit get_system_status
  handle_endpoint to_turns req st = handle_ingest_turns req st
  handle_endpoint to_conversations req st =
      guarded_read req st
        (λ (s : WorkerState S). returned (conversations (list_conversations s.db)))
  handle_endpoint to_search req st = guarded_read req st (λ (s : WorkerState S).
      search_with s.db (validate_search_query req.query) (parse_search_limit req.limit))
  handle_endpoint to_status req st = guarded_read req st (λ (s : WorkerState S).
      returned (system_status (get_system_status (platform.head s.store) s.db)))
  handle_endpoint to_artifacts req st = handle_create_artifact req st
  handle_endpoint nowhere req st = (thrown not_found, st)
  handle_endpoint (to_content raw) req st = decoded (platform.decode raw) st (λ id.
      if text_eq req.method (codes "PUT")
      then guarded (codes "PUT") capture_full req st (put_artifact_bytes req id)
      else if text_eq req.method (codes "GET")
      then guarded_read req st (λ (s : WorkerState S). answer artifact_bytes (
          handle_get_artifact_content platform.storage platform.sha256
            (artifact_max_bytes_of env.artifact_size_limit) platform.backend draw.now s.db s.store
            id))
      else (thrown method_not_allowed, st))
  handle_endpoint (to_artifact raw) req st = decoded (platform.decode raw) st (λ id.
      guarded_read req st (λ (s : WorkerState S). found_record (find_artifact id s.db.artifacts)))
  handle_endpoint (to_conversation_artifacts raw) req st = decoded (platform.decode raw) st (λ id.
      guarded_read req st (λ (s : WorkerState S).
        answer (conversation_artifacts id) (list_conversation_artifacts s.db id)))
  handle_endpoint (to_conversation_turns raw) req st = decoded (platform.decode raw) st (λ id.
      guarded_read req st
        (λ (s : WorkerState S). answer (conversation_turns id) (list_conversation_turns s.db id)))

  abbrev pub or_session :
      Option (Outcome Text × List SessionRecord) → HttpRequest → WorkerState S → Handled
  or_session (some (r, sessions)) req st =
      (answer session_cookie r, record st { sessions = sessions })
  or_session none req st = handle_endpoint (endpoint_of req.pathname) req st

  abbrev pub or_pair : Option (Outcome PairReply × Bool) → HttpRequest → WorkerState S → Handled
  or_pair (some (r, consumed)) req st =
      (answer pairing r, record st { pairing_consumed = consumed })
  or_pair none req st =
      or_session
        (handle_recall_session platform.digest platform.hash env req draw.session_token draw.now_ms
          st.sessions)
        req st

  -- `routeV1`
  unfoldable pub route_v1 : HttpRequest → WorkerState S → Handled
  unfolding handle_dev_pair handle_recall_session handle_endpoint endpoint_of
  route_v1 req st = or_pair (handle_dev_pair env req st.pairing_consumed) req st
