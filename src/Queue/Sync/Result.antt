-- ===== src/Queue/Sync/Result.antt =====
-- `applyResult` of apps/extension/src/queue/sync.ts: what the response does to the batch.
use newell_ai.Common.{
  ℕ, ◌+◌, Text, codes, decimal, Option, none, some, Bool, false, ◌||◌, List, [], ◌∷◌, ◌++◌, leb,
  ◌==◌, or_else, if◌then◌else◌,
}
use newell_ai.Common.Keys.{text_order}
use newell_ai.Idb.{put, delete}
use newell_ai.Queue.Types.{
  QueueEnvelope, DeadLetter, SyncOutcome, pending, max_attempts, backoff_ms,
}
use newell_ai.Queue.Db.{QueueDb, queue_key, dead_key}
use newell_ai.Queue.Operations.{StatusUpdate, set_status, to_auth_blocked, to_pending}

-- `status` of the response; `none` when there is none.
abbrev pub has_code : ℕ → Option ℕ → Bool
has_code n none = false
has_code n (some s) = s == n

abbrev pub is_permanent : Option ℕ → Bool
is_permanent s = has_code 400 s || has_code 404 s || has_code 405 s

-- `${status}`; the text is only read where the status is a number.
abbrev pub status_text : Option ℕ → Text
status_text none = codes "null"
status_text (some s) = decimal s

-- The stores and the counters that the loop over the batch changes.
pub record Progress : Type 0 where
  pub queue : List QueueEnvelope
  pub dead : List DeadLetter
  pub outcome : SyncOutcome

abbrev pub bury : QueueEnvelope → Text → ℕ → Progress → Progress
bury e reason now p = record {
  queue = delete queue_key e.queue_id p.queue;
  dead = put dead_key (record { envelope = e; reason = reason; dead_at = now }) p.dead;
  outcome = record (p.outcome) { dead_lettered = p.outcome.dead_lettered + 1 };
}

abbrev pub retry : QueueEnvelope → ℕ → ℕ → Progress → Progress
retry item attempts now p = record p {
  queue =
      put queue_key
        (record item {
          state = pending;
          attempts = attempts;
          next_attempt_at = now + backoff_ms attempts;
        })
        p.queue;
  outcome = record (p.outcome) { retried = p.outcome.retried + 1 };
}

-- The last branch of the loop: a network error or a server error.
unfoldable pub transient : QueueEnvelope → ℕ → Progress → Progress
transient item now p =
    let attempts = item.attempts + 1 in
    if leb max_attempts attempts
    then bury (record item { state = pending; attempts = attempts }) (codes "max attempts exceeded")
        now p
    else retry item attempts now p

-- One round of the loop.
unfoldable pub apply_item : Option ℕ → ℕ → QueueEnvelope → Progress → Progress
unfolding transient
apply_item status now item p =
    if has_code 200 status
    then record p {
      queue = delete queue_key item.queue_id p.queue;
      outcome = record (p.outcome) { delivered = p.outcome.delivered + 1 };
    }
    else if has_code 401 status
    then record p {
      queue = put queue_key (to_auth_blocked item) p.queue;
      outcome = record (p.outcome) { auth_blocked = p.outcome.auth_blocked + 1 };
    }
    else if is_permanent status
    then bury (to_pending item)
        (codes "permanent rejection (HTTP " ++ status_text status ++ codes ")") now p
    else transient item now p

unfoldable pub apply_items : Option ℕ → ℕ → List QueueEnvelope → Progress → Progress
unfolding apply_item
apply_items status now [] p = p
apply_items status now (item ∷ batch) p =
    apply_items status now batch (apply_item status now item p)

abbrev pub transient_error : Option ℕ → Option Text → Text
transient_error none diagnostic = or_else diagnostic (codes "network error")
transient_error (some s) diagnostic = codes "server error (HTTP " ++ decimal s ++ codes ")"

-- The update of the status record behind the loop.
unfoldable pub result_status : Option ℕ → ℕ → Option Text → StatusUpdate
result_status status now diagnostic =
    if has_code 200 status
    then record { last_error = some none; last_success_at = some now }
    else if has_code 401 status
    then record {
      last_error = some (some (codes "authentication rejected (401)"));
      last_success_at = none;
    }
    else if is_permanent status
    then record {
      last_error = some (some (codes "upload rejected (HTTP " ++ status_text status ++ codes ")"));
      last_success_at = none;
    }
    else record {
      last_error = some (some (transient_error status diagnostic));
      last_success_at = none;
    }

-- `applyResult`
unfoldable pub apply_result :
    QueueDb → List QueueEnvelope → Option ℕ → ℕ → SyncOutcome → Option Text → SyncOutcome × QueueDb
unfolding apply_items result_status
apply_result db batch status now outcome diagnostic =
    let p =
      apply_items status now batch
        (record { queue = db.queue; dead = db.dead; outcome = outcome }) in
    (
      p.outcome,
      set_status (result_status status now diagnostic)
          (record db { queue = p.queue; dead = p.dead }),
    )
