-- ===== src/Queue/System/Bounds.antt =====
-- The retry budget: no record of the queue or of the batch has used up its five attempts, and no
-- dead letter has used more than five.
use newell_ai.Common.{ℕ, ◌≤◌, ◌<◌, Text, ◌≡◌, refl, arith, All, Option-cases, inl, inr}
use newell_ai.Common.Keys.{text_order}
use newell_ai.Idb.Members.{put-All}
use newell_ai.Queue.Types.{QueueEnvelope, DeadLetter, EnqueueInput, max_attempts}
use newell_ai.Queue.Db.{QueueDb, queue_key}
use newell_ai.Queue.Enqueue.{enqueue, accept, new_envelope, next_turn_sequence}
use newell_ai.Queue.Identity.{identity, registered_key, enqueue-known, enqueue-new}
use newell_ai.Queue.Operations.{
  recover_in_flight, requeue_auth_blocked, hold_pending_as_auth_blocked, force_pending_due,
  clear_dead_letters, set_status,
}
use newell_ai.Queue.Keeps.{
  IsStable, rewrite_state-All, select_batch-All, apply_items-All, apply_items-dead_All,
}
use newell_ai.Queue.Sync.Result.{apply_result}
use newell_ai.Queue.System.{
  System, Step, Reach, start, next, enqueue_turn, recover, requeue, hold, force, clear,
  update_status, begin_sync, end_sync,
}

abbrev pub HasBudget : QueueEnvelope → Type 0
HasBudget e = e.attempts < max_attempts

abbrev pub IsSpent : DeadLetter → Type 0
IsSpent d = d.envelope.attempts ≤ max_attempts

pub record IsBudgeted (s : System) : Type 0 where
  pub queue : All HasBudget s.db.queue
  pub batch : All HasBudget s.batch
  pub dead : All IsSpent s.db.dead

HasBudget-IsStable : IsStable HasBudget
HasBudget-IsStable = record {
  pending = λ e h. h;
  pending_now = λ e h. h;
  blocked = λ e h. h;
  flying = λ e h. h;
  due = λ e h. h;
}

enqueue-HasBudget :
    (db : QueueDb) (input : EnqueueInput) (turn_uuid queue_uuid : Text) (now : ℕ)
    → All HasBudget db.queue
    → All HasBudget (enqueue db input turn_uuid queue_uuid now).1.queue
      × ((enqueue db input turn_uuid queue_uuid now).1.dead ≡ db.dead)
enqueue-HasBudget db input turn_uuid queue_uuid now h =
    let key = registered_key db input turn_uuid queue_uuid now in
    elim (Option-cases (identity db input.conversation.conversation_id key)) [
      | inl new ↦ rw (enqueue-new db input turn_uuid queue_uuid now new) (
          unfold accept in
          (
            put-All queue_key HasBudget
                (new_envelope input key (next_turn_sequence db input.conversation.conversation_id)
                  queue_uuid now)
                db.queue (omega arith) h,
            refl,
          ))
      | inr (r, known) ↦ rw (enqueue-known db input turn_uuid queue_uuid now r known) (h, refl)
    ]

Step-IsBudgeted : {s t : System} → Step s t → IsBudgeted s → IsBudgeted t
unfolding recover_in_flight requeue_auth_blocked hold_pending_as_auth_blocked force_pending_due
    clear_dead_letters set_status apply_result
Step-IsBudgeted {s} (enqueue_turn input tu qu now fresh) h =
    let (q, d) = enqueue-HasBudget s.db input tu qu now h.queue in
    record { queue = q; batch = h.batch; dead = rw d h.dead }
Step-IsBudgeted {s} recover h = record {
  queue = rewrite_state-All HasBudget _ _ s.db HasBudget-IsStable.pending h.queue;
  batch = h.batch;
  dead = h.dead;
}
Step-IsBudgeted {s} requeue h = record {
  queue = rewrite_state-All HasBudget _ _ s.db HasBudget-IsStable.pending_now h.queue;
  batch = h.batch;
  dead = h.dead;
}
Step-IsBudgeted {s} hold h = record {
  queue = rewrite_state-All HasBudget _ _ s.db HasBudget-IsStable.blocked h.queue;
  batch = h.batch;
  dead = h.dead;
}
Step-IsBudgeted {s} force h = record {
  queue = rewrite_state-All HasBudget _ _ s.db HasBudget-IsStable.due h.queue;
  batch = h.batch;
  dead = h.dead;
}
Step-IsBudgeted clear h = record { queue = h.queue; batch = h.batch; dead = tt }
Step-IsBudgeted (update_status u) h = record { queue = h.queue; batch = h.batch; dead = h.dead }
Step-IsBudgeted {s} (begin_sync locale_compare now none_yet) h =
    let (b, q) =
      select_batch-All HasBudget HasBudget-IsStable locale_compare now s.db.queue h.queue in
    record { queue = q; batch = b; dead = h.dead }
Step-IsBudgeted {s} (end_sync status now outcome diagnostic) h = record {
  queue =
      apply_items-All HasBudget HasBudget-IsStable status now (λ e left k. ground arith) s.batch _
        h.batch h.queue;
  batch = tt;
  dead =
      apply_items-dead_All HasBudget IsSpent status now (λ e k. omega arith)
        (λ e spent k. omega arith) s.batch _ h.batch h.dead;
}

-- Whatever the handlers do and however their transactions interleave with a request, every record
-- of the queue has made fewer than five attempts, and no dead letter has made more than five.
pub Reach-IsBudgeted : {s : System} → Reach s → IsBudgeted s
Reach-IsBudgeted start = record { queue = tt; batch = tt; dead = tt }
Reach-IsBudgeted (next r step) = Step-IsBudgeted step (Reach-IsBudgeted r)
