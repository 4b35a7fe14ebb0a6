-- ===== src/Queue/System.antt =====
-- The queue as the extension runs it: the transactions of its handlers in any order, with at most
-- one sync under way, whose request may be answered after any number of other transactions. The
-- lists `accepted`, `delivered` and `cleared` are a history that the program does not keep.
pub mod Bounds
pub mod Conservation
pub mod Guarantee
pub mod Payload
use newell_ai.Common.{
  ℕ, Text, Option, none, some, Bool, List, [], ◌∷◌, ◌++◌, map, Ordering, ◌≡◌, ◌≢◌, All, Any, ◌||◌,
  text_eq, any, if◌then◌else◌,
}
use newell_ai.Contracts.{TurnPayload}
use newell_ai.Queue.Types.{
  QueueEnvelope, EnqueueInput, EnqueueResult, accepted, already_known, SyncOutcome,
}
use newell_ai.Queue.Db.{QueueDb, queue_key, dead_key}
use newell_ai.Queue.Enqueue.{enqueue, numbered_turn}
use newell_ai.Queue.Operations.{
  recover_in_flight, requeue_auth_blocked, hold_pending_as_auth_blocked, force_pending_due,
  clear_dead_letters, StatusUpdate, set_status,
}
use newell_ai.Queue.Sync.Select.{select_batch}
use newell_ai.Queue.Sync.Result.{has_code, apply_result}

pub record System : Type 0 where
  pub db : QueueDb
  -- The batch whose request is under way; empty if there is none.
  pub batch : List QueueEnvelope
  -- The queue ids and turns that `enqueue` accepted.
  pub accepted : List (Text × TurnPayload)
  -- The queue ids that the server acknowledged with status 200.
  pub delivered : List Text
  -- The queue ids of the dead letters that the operator cleared.
  pub cleared : List Text

abbrev pub empty_db : QueueDb
empty_db = record { queue = []; dead = []; identities = []; sequences = []; status = none }

abbrev pub init : System
init = record { db = empty_db; batch = []; accepted = []; delivered = []; cleared = [] }

abbrev pub noted :
    EnqueueInput → Text → EnqueueResult → List (Text × TurnPayload) → List (Text × TurnPayload)
noted input queue_uuid (accepted id n) before = (queue_uuid, numbered_turn input.turn id n) ∷ before
noted input queue_uuid (already_known id n) before = before

-- `crypto.randomUUID()` returned an id that no accepted turn has.
abbrev pub IsFresh : Text → List (Text × TurnPayload) → Type 0
IsFresh queue_uuid before = All (λ x. x.0 ≢ queue_uuid) before

abbrev pub acknowledged : Option ℕ → List QueueEnvelope → List Text → List Text
acknowledged status batch before =
    if has_code 200 status then map queue_key batch ++ before else before

pub data Step (s : System) : System → Type 0 where
  enqueue_turn :
      (input : EnqueueInput) (turn_uuid queue_uuid : Text) (now : ℕ)
      → IsFresh queue_uuid s.accepted
      → Step s (record s {
        db = (enqueue s.db input turn_uuid queue_uuid now).1;
        accepted =
            noted input queue_uuid (enqueue s.db input turn_uuid queue_uuid now).0 s.accepted;
      })
  recover : Step s (record s { db = (recover_in_flight s.db).1 })
  requeue : Step s (record s { db = (requeue_auth_blocked s.db).1 })
  hold : Step s (record s { db = (hold_pending_as_auth_blocked s.db).1 })
  force : Step s (record s { db = (force_pending_due s.db).1 })
  clear :
      Step s (record s {
        db = (clear_dead_letters s.db).1;
        cleared = map dead_key s.db.dead ++ s.cleared;
      })
  update_status : (u : StatusUpdate) → Step s (record s { db = set_status u s.db })
  begin_sync :
      (locale_compare : Text → Text → Ordering) (now : ℕ)
      → s.batch ≡ []
      → Step s (record s {
        db = record (s.db) { queue = (select_batch locale_compare now s.db.queue).1 };
        batch = (select_batch locale_compare now s.db.queue).0;
      })
  end_sync :
      (status : Option ℕ) (now : ℕ) (outcome : SyncOutcome) (diagnostic : Option Text)
      → Step s (record s {
        db = (apply_result s.db s.batch status now outcome diagnostic).1;
        batch = [];
        delivered = acknowledged status s.batch s.delivered;
      })

pub data Reach : System → Type 0 where
  start : Reach init
  next : {s t : System} → Reach s → Step s t → Reach t
