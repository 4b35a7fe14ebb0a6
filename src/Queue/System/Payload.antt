-- ===== src/Queue/System/Payload.antt =====
-- The record under an id has the turn with which the id was accepted.
use newell_ai.Common.{
  ℕ, Text, ◌≡◌, ◌≢◌, refl, sym, ◌∙◌, List, [], ◌∷◌, All, Any, All-map_imp, Option-cases, inl, inr,
}
use newell_ai.Common.Keys.{text_order}
use newell_ai.Contracts.{TurnPayload}
use newell_ai.Idb.Members.{put-All}
use newell_ai.Queue.Types.{QueueEnvelope, DeadLetter, EnqueueInput}
use newell_ai.Queue.Db.{queue_key}
use newell_ai.Queue.Enqueue.{enqueue, accept, new_envelope, next_turn_sequence}
use newell_ai.Queue.Identity.{identity, registered_key, enqueue-known, enqueue-new}
use newell_ai.Queue.Operations.{
  recover_in_flight, requeue_auth_blocked, hold_pending_as_auth_blocked, force_pending_due,
  clear_dead_letters, set_status,
}
use newell_ai.Queue.Keeps.{
  IsStable, rewrite_state-All, select_batch-All, apply_items-All, apply_items-dead_All,
}
use newell_ai.Queue.Sync.Result.{apply_result}
use newell_ai.Queue.System.{
  System, Step, Reach, start, next, enqueue_turn, recover, requeue, hold, force, clear,
  update_status, begin_sync, end_sync, noted, IsFresh,
}

-- The record's id was accepted with the record's turn.
abbrev pub IsKnown : List (Text × TurnPayload) → QueueEnvelope → Type 0
IsKnown before e = Any (λ x. (x.0 ≡ e.queue_id) × (x.1 ≡ e.turn)) before

abbrev pub IsKnownLetter : List (Text × TurnPayload) → DeadLetter → Type 0
IsKnownLetter before d = IsKnown before d.envelope

-- No id was accepted twice.
abbrev pub HasUniqueIds : List (Text × TurnPayload) → Type 0
HasUniqueIds [] = Unit
HasUniqueIds (x ∷ xs) = IsFresh x.0 xs × HasUniqueIds xs

pub record IsFaithful (s : System) : Type 0 where
  pub queue : All (IsKnown s.accepted) s.db.queue
  pub batch : All (IsKnown s.accepted) s.batch
  pub dead : All (IsKnownLetter s.accepted) s.db.dead
  pub unique : HasUniqueIds s.accepted

IsKnown-IsStable : (before : List (Text × TurnPayload)) → IsStable (IsKnown before)
IsKnown-IsStable before = record {
  pending = λ e h. h;
  pending_now = λ e h. h;
  blocked = λ e h. h;
  flying = λ e h. h;
  due = λ e h. h;
}

enqueue-IsFaithful :
    (s : System) (input : EnqueueInput) (turn_uuid queue_uuid : Text) (now : ℕ)
    → IsFresh queue_uuid s.accepted
    → IsFaithful s
    → IsFaithful (record s {
      db = (enqueue s.db input turn_uuid queue_uuid now).1;
      accepted = noted input queue_uuid (enqueue s.db input turn_uuid queue_uuid now).0 s.accepted;
    })
enqueue-IsFaithful s input turn_uuid queue_uuid now fresh h =
    let key = registered_key s.db input turn_uuid queue_uuid now in
    let c = input.conversation.conversation_id in
    elim (Option-cases (identity s.db c key)) [
      | inl new ↦ rw (enqueue-new s.db input turn_uuid queue_uuid now new) (
          unfold accept in
          record {
            queue =
                put-All queue_key _
                  (new_envelope input key (next_turn_sequence s.db c) queue_uuid now) s.db.queue
                  (inl (refl, refl))
                  (All-map_imp (IsKnown s.accepted) _ s.db.queue (λ e k. inr k) h.queue);
            batch = All-map_imp (IsKnown s.accepted) _ s.batch (λ e k. inr k) h.batch;
            dead = All-map_imp (IsKnownLetter s.accepted) _ s.db.dead (λ e k. inr k) h.dead;
            unique = (fresh, h.unique);
          })
      | inr (r, known) ↦
          rw (enqueue-known s.db input turn_uuid queue_uuid now r known)
            (record { queue = h.queue; batch = h.batch; dead = h.dead; unique = h.unique })
    ]

Step-IsFaithful : {s t : System} → Step s t → IsFaithful s → IsFaithful t
unfolding recover_in_flight requeue_auth_blocked hold_pending_as_auth_blocked force_pending_due
    clear_dead_letters set_status apply_result
Step-IsFaithful {s} (enqueue_turn input tu qu now fresh) h =
    enqueue-IsFaithful s input tu qu now fresh h
Step-IsFaithful {s} recover h = record {
  queue =
      rewrite_state-All (IsKnown s.accepted) _ _ s.db (IsKnown-IsStable s.accepted).pending h.queue;
  batch = h.batch;
  dead = h.dead;
  unique = h.unique;
}
Step-IsFaithful {s} requeue h = record {
  queue =
      rewrite_state-All (IsKnown s.accepted) _ _ s.db (IsKnown-IsStable s.accepted).pending_now
        h.queue;
  batch = h.batch;
  dead = h.dead;
  unique = h.unique;
}
Step-IsFaithful {s} hold h = record {
  queue =
      rewrite_state-All (IsKnown s.accepted) _ _ s.db (IsKnown-IsStable s.accepted).blocked h.queue;
  batch = h.batch;
  dead = h.dead;
  unique = h.unique;
}
Step-IsFaithful {s} force h = record {
  queue = rewrite_state-All (IsKnown s.accepted) _ _ s.db (IsKnown-IsStable s.accepted).due h.queue;
  batch = h.batch;
  dead = h.dead;
  unique = h.unique;
}
Step-IsFaithful clear h = record { queue = h.queue; batch = h.batch; dead = tt; unique = h.unique }
Step-IsFaithful (update_status u) h = record {
  queue = h.queue;
  batch = h.batch;
  dead = h.dead;
  unique = h.unique;
}
Step-IsFaithful {s} (begin_sync locale_compare now none_yet) h =
    let (b, q) =
      select_batch-All (IsKnown s.accepted) (IsKnown-IsStable s.accepted) locale_compare now
        s.db.queue h.queue in
    record { queue = q; batch = b; dead = h.dead; unique = h.unique }
Step-IsFaithful {s} (end_sync status now outcome diagnostic) h = record {
  queue =
      apply_items-All (IsKnown s.accepted) (IsKnown-IsStable s.accepted) status now (λ e left k. k)
        s.batch _ h.batch h.queue;
  batch = tt;
  dead =
      apply_items-dead_All (IsKnown s.accepted) (IsKnownLetter s.accepted) status now (λ e k. k)
        (λ e spent k. k) s.batch _ h.batch h.dead;
  unique = h.unique;
}

pub Reach-IsFaithful : {s : System} → Reach s → IsFaithful s
Reach-IsFaithful start = record { queue = tt; batch = tt; dead = tt; unique = tt }
Reach-IsFaithful (next r step) = Step-IsFaithful step (Reach-IsFaithful r)

-- Where ids are unique, two acceptances of an id are the same.
pub unique_turn :
    (before : List (Text × TurnPayload)) (j : Text) (t : TurnPayload)
    → HasUniqueIds before
    → Any (λ x. (x.0 ≡ j) × (x.1 ≡ t)) before
    → All (λ x. x.0 ≡ j → x.1 ≡ t) before
unique_turn [] j t u h = tt
unique_turn (x ∷ xs) j t (fresh, u) (inl (id, turn)) =
    (λ _. turn, All-map_imp (λ y. y.0 ≢ x.0) _ xs (λ y ne same. absurd (ne (same ∙ sym id))) fresh)
unique_turn (x ∷ xs) j t (fresh, u) (inr h) =
    (λ same. absurd (later_fresh xs fresh h same), unique_turn xs j t u h)
  where
    later_fresh :
        (ys : List (Text × TurnPayload))
        → IsFresh x.0 ys
        → Any (λ y. (y.0 ≡ j) × (y.1 ≡ t)) ys
        → x.0 ≡ j
        → ⊥
    later_fresh [] f h same = h
    later_fresh (y ∷ ys) (ne, _) (inl (id, _)) same = ne (id ∙ sym same)
    later_fresh (y ∷ ys) (_, nes) (inr h) same = later_fresh ys nes h same
