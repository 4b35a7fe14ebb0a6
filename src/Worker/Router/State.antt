-- ===== src/Worker/Router/State.antt =====
-- What the handlers of apps/worker/src/routes/v1 share: the answers, the worker's state, what a
-- request draws and what the platform gives, and `artifactMaxBytes` of apps/worker/src/storage.
use newell_ai.Common.{
  ℕ, ◌*◌, Text, trim, Option, none, some, Bool, false, List, length, ltb, leb, ◌==◌, if◌then◌else◌,
}
use newell_ai.Contracts.{
  ConversationSummary, TurnRecord, SearchHit, SystemStatus, ArtifactAcceptResponse, ArtifactRecord,
}
use newell_ai.Worker.Artifacts.{Outcome, returned, thrown}
use newell_ai.Worker.Artifacts.Content.{ObjectStorage, StoredObject, ContentResponse}
use newell_ai.Worker.Auth.{SessionRecord}
use newell_ai.Worker.Db.{WorkerDb}
use newell_ai.Worker.Local.{PairReply}
use newell_ai.Worker.Turns.{PersistResult}
use newell_ai.Worker.Reads.{parse_int}

-- The bodies of the answers, without `server_time`.
pub data Reply : Type 0 where
  pairing : PairReply → Reply
  session_cookie : Text → Reply
  ingested : PersistResult → Text → Reply
  conversations : List ConversationSummary → Reply
  conversation_turns : Text → List TurnRecord → Reply
  conversation_artifacts : Text → List ArtifactRecord → Reply
  hits : Text → List SearchHit → Reply
  system_status : SystemStatus → Reply
  artifact_accepted : ArtifactAcceptResponse → Reply
  artifact_content : ContentResponse → Reply
  artifact_bytes : StoredObject → Reply
  artifact : ArtifactRecord → Reply

abbrev pub answer : {A : Type 0} → (A → Reply) → Outcome A → Outcome Reply
answer f (thrown e) = thrown e
answer f (returned x) = returned (f x)

-- What the worker keeps: the database and the storage, and of this process the sessions and the
-- latch of the pairing.
pub record WorkerState (S : Type 0) : Type 0 where
  pub db : WorkerDb
  pub store : S
  pub sessions : List SessionRecord
  pub pairing_consumed : Bool

-- What a request draws: the time, as a text and in milliseconds, and random ids.
pub record Draw : Type 0 where
  pub now : Text
  pub now_ms : ℕ
  pub uuid : Text
  pub uuids : ℕ → Text
  pub session_token : Text

abbrev pub default_max_bytes : ℕ
default_max_bytes = 25 * 1024 * 1024

abbrev pub positive_bytes : Option ℕ → ℕ
positive_bytes none = default_max_bytes
positive_bytes (some n) = if leb n 0 then default_max_bytes else n

-- `artifactMaxBytes`
unfoldable pub artifact_max_bytes_of : Option Text → ℕ
unfolding parse_int
artifact_max_bytes_of none = default_max_bytes
artifact_max_bytes_of (some raw) =
    if length (trim raw) == 0 then default_max_bytes else positive_bytes (parse_int raw)

abbrev pub too_large : Option ℕ → ℕ → Bool
too_large none limit = false
too_large (some n) limit = ltb limit n

-- What is not the worker's own code: the storage and its `head`, SHA-256 of bytes, of a token and in
-- hexadecimal, LIKE, `toLowerCase`, and `decodeURIComponent`, which can throw.
pub record Platform (S : Type 0) : Type 0 where
  pub storage : ObjectStorage S
  pub head : S → Text → Outcome Bool
  pub sha256 : List ℕ → Text
  pub backend : Text
  pub digest : Text → List ℕ
  pub hash : Text → Text
  pub like : Text → Text → Bool
  pub lower : Text → Text
  pub decode : Text → Outcome Text
