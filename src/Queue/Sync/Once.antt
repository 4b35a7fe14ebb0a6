-- ===== src/Queue/Sync/Once.antt =====
-- `syncOnce` of apps/extension/src/queue/sync.ts. What the server answers is a function of the
-- request; what other handlers commit to the database while the request is under way is the
-- function `others`.
use newell_ai.Common.{
  ℕ, Text, codes, strip_slash, Option, none, some, Bool, true, false, List, [], ◌∷◌, ◌++◌, map,
  ◌==◌, Ordering,
}
use newell_ai.Contracts.{UploadRequest}
use newell_ai.Token.{TokenValidation, valid, invalid, invalid_token_message, validate_capture_token}
use newell_ai.Queue.Types.{QueueEnvelope, SyncOutcome}
use newell_ai.Queue.Db.{QueueDb}
use newell_ai.Queue.Operations.{StatusUpdate, set_status, hold_pending_as_auth_blocked}
use newell_ai.Queue.Sync.Select.{select_batch}
use newell_ai.Queue.Sync.Result.{apply_result}
use newell_ai.Queue.Sync.Sanitize.{Thrown, sanitize_fetch_error}

pub record SyncConfig : Type 0 where
  pub base_url : Text
  pub token : Text

-- The arguments of `fetchFn` that vary.
pub record HttpRequest : Type 0 where
  pub url : Text
  pub authorization : Text
  pub body : UploadRequest

pub data FetchResult : Type 0 where
  responded : (status : ℕ) → FetchResult
  thrown : Thrown → FetchResult

abbrev pub status_of : FetchResult → Option ℕ
status_of (responded status) = some status
status_of (thrown e) = none

abbrev pub diagnostic_of : FetchResult → Option Text
diagnostic_of (responded status) = none
diagnostic_of (thrown e) = some (sanitize_fetch_error e)

-- The outcome, the database behind the call, and the request that was sent, if one was.
pub record SyncRun : Type 0 where
  pub outcome : SyncOutcome
  pub db : QueueDb
  pub sent : Option HttpRequest

abbrev pub no_outcome : Bool → SyncOutcome
no_outcome idle = record {
  delivered = 0;
  retried = 0;
  dead_lettered = 0;
  auth_blocked = 0;
  idle = idle;
}

abbrev pub last_error_only : Text → StatusUpdate
last_error_only e = record { last_error = some (some e); last_success_at = none }

-- The branch for a token that cannot be a header.
unfoldable pub hold_for_token : QueueDb → SyncRun
hold_for_token db =
    let (blocked, held) = hold_pending_as_auth_blocked db in
    record {
      outcome = record (no_outcome (blocked == 0)) { auth_blocked = blocked };
      db = set_status (last_error_only invalid_token_message) held;
      sent = none;
    }

unfoldable pub upload_request : SyncConfig → QueueEnvelope → List QueueEnvelope → HttpRequest
upload_request config first rest = record {
  url = strip_slash config.base_url ++ codes "/v1/turns";
  authorization = codes "Bearer " ++ config.token;
  body = record {
    conversation = first.conversation;
    capture = first.capture;
    turns = map (λ e. e.turn) (first ∷ rest);
  };
}

module _ (locale_compare : Text → Text → Ordering) (fetch : HttpRequest → FetchResult) (now : ℕ)
    (others : QueueDb → QueueDb) where
  unfoldable pub sync_batch : SyncConfig → QueueDb → List QueueEnvelope → SyncRun
  sync_batch config db [] = record { outcome = no_outcome true; db = db; sent = none }
  sync_batch config db (first ∷ rest) =
      let request = upload_request config first rest in
      let response = fetch request in
      let (outcome, db') =
        apply_result (others db) (first ∷ rest) (status_of response) now (no_outcome false)
          (diagnostic_of response) in
      record { outcome = outcome; db = db'; sent = some request }

  unfoldable pub sync_checked : TokenValidation → SyncConfig → QueueDb → SyncRun
  unfolding sync_batch hold_for_token
  sync_checked (invalid message) config db = hold_for_token db
  sync_checked (valid token) config db =
      let (batch, queue) = select_batch locale_compare now db.queue in
      sync_batch (record config { token = token }) (record db { queue = queue }) batch

  -- `syncOnce`
  unfoldable pub sync_once : QueueDb → SyncConfig → SyncRun
  unfolding sync_checked
  sync_once db config = sync_checked (validate_capture_token config.token) config db
