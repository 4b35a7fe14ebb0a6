-- ===== src/Queue/Operations.antt =====
-- The maintenance operations of apps/extension/src/queue/queue.ts, each one transaction.
use newell_ai.Common.{
  ℕ, Text, Option, none, some, Bool, true, false, List, [], ◌∷◌, map, filter, length, ltb,
  if◌then◌else◌,
}
use newell_ai.Common.Int.{ℤ, sub_ℕ}
use newell_ai.Common.Keys.{text_order}
use newell_ai.Idb.{put_all}
use newell_ai.Queue.Types.{
  QueueState, pending, in_flight, auth_blocked, QueueEnvelope, DeadLetter, QueueStatus,
}
use newell_ai.Queue.Db.{QueueDb, StatusRecord, queue_key}

abbrev pub state_eq : QueueState → QueueState → Bool
state_eq pending pending = true
state_eq pending in_flight = false
state_eq pending auth_blocked = false
state_eq in_flight pending = false
state_eq in_flight in_flight = true
state_eq in_flight auth_blocked = false
state_eq auth_blocked pending = false
state_eq auth_blocked in_flight = false
state_eq auth_blocked auth_blocked = true

abbrev pub has_state : QueueState → QueueEnvelope → Bool
has_state s e = state_eq e.state s

-- Reads the records of a state by the index `by_state` and puts a changed copy of each.
unfoldable pub rewrite_state : QueueState → (QueueEnvelope → QueueEnvelope) → QueueDb → ℕ × QueueDb
rewrite_state s change db =
    let items = filter (has_state s) db.queue in
    (length items, record db { queue = put_all queue_key (map change items) db.queue })

abbrev pub to_pending : QueueEnvelope → QueueEnvelope
to_pending e = record e { state = pending }

abbrev pub to_pending_now : QueueEnvelope → QueueEnvelope
to_pending_now e = record e { state = pending; next_attempt_at = 0 }

abbrev pub to_auth_blocked : QueueEnvelope → QueueEnvelope
to_auth_blocked e = record e { state = auth_blocked }

abbrev pub to_due : QueueEnvelope → QueueEnvelope
to_due e = record e { next_attempt_at = 0 }

-- `recoverInFlight`
unfoldable pub recover_in_flight : QueueDb → ℕ × QueueDb
unfolding rewrite_state
recover_in_flight = rewrite_state in_flight to_pending

-- `requeueAuthBlocked`
unfoldable pub requeue_auth_blocked : QueueDb → ℕ × QueueDb
unfolding rewrite_state
requeue_auth_blocked = rewrite_state auth_blocked to_pending_now

-- `holdPendingAsAuthBlocked`
unfoldable pub hold_pending_as_auth_blocked : QueueDb → ℕ × QueueDb
unfolding rewrite_state
hold_pending_as_auth_blocked = rewrite_state pending to_auth_blocked

-- `forcePendingDue`
unfoldable pub force_pending_due : QueueDb → ℕ × QueueDb
unfolding rewrite_state
force_pending_due = rewrite_state pending to_due

-- `clearDeadLetters`
unfoldable pub clear_dead_letters : QueueDb → ℕ × QueueDb
clear_dead_letters db = (length db.dead, record db { dead = [] })

-- `getDeadLetters`
unfoldable pub get_dead_letters : QueueDb → List DeadLetter
get_dead_letters db = db.dead

-- The argument `update` of `setStatus`; `none` is a field that is not given.
pub record StatusUpdate : Type 0 where
  pub last_error : Option (Option Text)
  pub last_success_at : Option ℕ

abbrev pub current_status : Option StatusRecord → StatusRecord
current_status none = record { last_error = none; last_success_at = none }
current_status (some r) = r

abbrev pub updated_status : StatusUpdate → StatusRecord → StatusRecord
updated_status u r = record {
  last_error = elim u.last_error [ none ↦ r.last_error | some e ↦ e ];
  last_success_at = elim u.last_success_at [ none ↦ r.last_success_at | some t ↦ some t ];
}

-- `setStatus`
unfoldable pub set_status : StatusUpdate → QueueDb → QueueDb
set_status u db = record db { status = some (updated_status u (current_status db.status)) }

-- The `reduce` of `getStatus`.
unfoldable pub oldest_from : Option ℕ → List QueueEnvelope → Option ℕ
oldest_from min_so_far [] = min_so_far
oldest_from none (i ∷ items) = oldest_from (some i.enqueued_at) items
oldest_from (some m) (i ∷ items) =
    oldest_from (some (if ltb i.enqueued_at m then i.enqueued_at else m)) items

abbrev pub age_of : ℕ → Option ℕ → Option ℤ
age_of now none = none
age_of now (some oldest) = some (sub_ℕ now oldest)

-- `getStatus`
unfoldable pub get_status : QueueDb → ℕ → QueueStatus
unfolding oldest_from
get_status db now =
    let pending_items = filter (has_state pending) db.queue in
    let s = current_status db.status in
    record {
      pending = length pending_items;
      auth_blocked = length (filter (has_state auth_blocked) db.queue);
      in_flight = length (filter (has_state in_flight) db.queue);
      dead = length db.dead;
      oldest_pending_age_ms = age_of now (oldest_from none pending_items);
      last_error = s.last_error;
      last_success_at = s.last_success_at;
    }
