-- ===== src/Artifacts/Crossing.antt =====
-- The transfers of apps/extension/src/artifacts/sync.ts cut at the points where `syncArtifactOnce`
-- awaits an answer. Any number of syncs may be under way, and between a request and its answer any
-- handler and any other sync may go on, in any order.
pub mod Phases
pub mod Laws
mod Tests
use newell_ai.Common.{ℕ, Text, Option, none, some, true, false, List, [], ◌∷◌, ◌++◌, ◌≡◌}
use newell_ai.Artifacts.Types.{ArtifactDb, ArtifactQueueEnvelope}
use newell_ai.Artifacts.Queue.{has_bytes}
use newell_ai.Artifacts.Sync.Select.{select_due_artifact}
use newell_ai.Artifacts.Sync.Respond.{patch_envelope, auth_refused}
use newell_ai.Artifacts.Sync.Once.{
  ArtifactHttpRequest, ArtifactFetchResult, responded, thrown, AcceptBody, parsed, unreadable,
  caught, wait_for_bytes, finish_content,
}
use newell_ai.Artifacts.System.{Steps}

-- A sync that awaits the answer to the metadata, or to the bytes, of the record it selected.
pub data Await : Type 0 where
  awaits_metadata : (item : ArtifactQueueEnvelope) → Await
  awaits_content : (item : ArtifactQueueEnvelope) (artifact_id : Option Text) → Await

abbrev pub item_of : Await → ArtifactQueueEnvelope
item_of (awaits_metadata item) = item
item_of (awaits_content item id) = item

-- What a sync does up to its next request, if there is one.
pub record Phase : Type 0 where
  pub next : Option Await
  pub db : ArtifactDb

abbrev pub ended : ArtifactDb → Phase
ended db = record { next = none; db = db }

-- The arguments of the phases that do not read them.
abbrev pub any_fetch : ArtifactFetchResult → ArtifactHttpRequest → ArtifactFetchResult
any_fetch answer request = answer

abbrev pub alone : ArtifactHttpRequest → ArtifactDb → ArtifactDb
alone request db = db

abbrev pub unread : ArtifactFetchResult
unread = responded 0 (parsed none)

module _ (now clock : ℕ) where
  -- Up to the `PUT`; without bytes the record goes back to wait.
  unfoldable pub begin_content : ArtifactQueueEnvelope → Option Text → ArtifactDb → Phase
  unfolding wait_for_bytes
  begin_content item id db = elim (has_bytes item.bytes) [
    | false ↦ ended (wait_for_bytes (any_fetch unread) now clock alone item db).1
    | true ↦ record { next = some (awaits_content item id); db = db }
  ]

  unfoldable pub begin_transfer : ArtifactQueueEnvelope → ArtifactDb → Phase
  unfolding begin_content
  begin_transfer item db = elim (item.artifact_id) [
    | none ↦ record { next = some (awaits_metadata item); db = db }
    | some id ↦ begin_content item (some id) db
  ]

  unfoldable pub note_id : ArtifactQueueEnvelope → AcceptBody → ArtifactDb → Phase
  unfolding begin_content patch_envelope
  note_id item (unreadable e) db = ended (caught (any_fetch unread) now clock alone item e db).1
  note_id item (parsed id) db =
      begin_content item id (patch_envelope item.queue_id (λ e. record e { artifact_id = id }) db)

  -- What an answer does, up to the next request of its sync.
  unfoldable pub answered : Await → ArtifactFetchResult → ArtifactDb → Phase
  unfolding note_id auth_refused finish_content
  answered (awaits_metadata item) (thrown e) db =
      ended (caught (any_fetch unread) now clock alone item e db).1
  answered (awaits_metadata item) (responded status body) db =
      elim (auth_refused clock item status now db) [
        | none ↦ note_id item body db
        | some early ↦ ended early.1
      ]
  answered (awaits_content item id) answer db =
      ended (finish_content (any_fetch unread) now clock alone answer item db).1

  abbrev pub begin_selected : Option ArtifactQueueEnvelope → ArtifactDb → Phase
  begin_selected none db = ended db
  begin_selected (some item) db = begin_transfer item db

-- The stores, and the syncs that are under way.
pub record Transfers : Type 0 where
  pub db : ArtifactDb
  pub awaiting : List Await

abbrev pub entered : Phase → List Await → Transfers
entered p awaiting = record {
  db = p.db;
  awaiting = elim p.next [ none ↦ awaiting | some w ↦ w ∷ awaiting ];
}

-- A sync takes a record, if one is due.
abbrev pub started : ℕ → ℕ → Transfers → Transfers
started now clock s =
    entered
      (begin_selected now clock (select_due_artifact now s.db.queue).0
        (record (s.db) { queue = (select_due_artifact now s.db.queue).1 }))
      s.awaiting

-- Any number of handlers and of phases of syncs, in any order, behind the stores `a`.
pub data Run (a : ArtifactDb) : Transfers → Type 0 where
  at_rest : Run a (record { db = a; awaiting = [] })
  handle : {s : Transfers} {b : ArtifactDb} → Run a s → Steps s.db b → Run a (record s { db = b })
  begin : {s : Transfers} → Run a s → (now clock : ℕ) → Run a (started now clock s)
  answer :
      {s : Transfers}
      → Run a s
      → (before after : List Await) (w : Await) → s.awaiting ≡ before ++ w ∷ after
      → (result : ArtifactFetchResult) (now clock : ℕ)
      → Run a (entered (answered now clock w result s.db) (before ++ after))
