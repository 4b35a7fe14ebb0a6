-- ===== src/Queue/Keeps.antt =====
-- Properties of single records that every operation on the queue keeps.
use newell_ai.Common.{
  ℕ, ◌+◌, Text, text_eq, Option, none, some, true, false, ◌≡◌, arith, List, [], ◌∷◌, map, filter,
  leb, Ordering, All, All-filter, All-take, All-map,
}
use newell_ai.Common.Keys.{text_order}
use newell_ai.Common.Sorting.{sort-All}
use newell_ai.Idb.Members.{put-All, delete-All, put_all-All}
use newell_ai.Queue.Types.{
  QueueState, in_flight, QueueEnvelope, DeadLetter, max_attempts, max_batch_turns,
}
use newell_ai.Queue.Db.{QueueDb, queue_key, dead_key}
use newell_ai.Queue.Operations.{
  has_state, rewrite_state, to_pending, to_pending_now, to_auth_blocked, to_due,
}
use newell_ai.Queue.Sync.Select.{
  select_batch, batch_of, chosen, conversation_of, target_conversation, is_due, revert,
  to_in_flight, turn_order,
}
use newell_ai.Queue.Sync.Result.{Progress, transient, apply_item, apply_items}
use newell_ai.Queue.Sync.Delivery.{retried_copy, permanent_letter, exhausted_letter}

module _ (P : QueueEnvelope → Type 0) where
  -- The property does not depend on the state or the due time.
  pub record IsStable : Type 0 where
    pub pending : (e : QueueEnvelope) → P e → P (to_pending e)
    pub pending_now : (e : QueueEnvelope) → P e → P (to_pending_now e)
    pub blocked : (e : QueueEnvelope) → P e → P (to_auth_blocked e)
    pub flying : (e : QueueEnvelope) → P e → P (to_in_flight e)
    pub due : (e : QueueEnvelope) → P e → P (to_due e)

  pub rewrite_state-All :
      (s : QueueState) (change : QueueEnvelope → QueueEnvelope) (db : QueueDb)
      → ((e : QueueEnvelope) → P e → P (change e))
      → All P db.queue
      → All P (rewrite_state s change db).1.queue
  unfolding rewrite_state
  rewrite_state-All s change db keep h =
      put_all-All queue_key P (map change (filter (has_state s) db.queue)) db.queue
        (All-map P change _ keep (All-filter P (has_state s) db.queue h)) h

  module _ (stable : IsStable) where
    revert-All : (q : List QueueEnvelope) → All P q → All P (map revert q)
    revert-All q h = All-map P revert q (λ e p. ground (arith, stable.pending e p)) h

    chosen-All : (t : Option Text) (due : List QueueEnvelope) → All P due → All P (chosen t due)
    unfolding batch_of
    chosen-All none due h = tt
    chosen-All (some target) due h =
        All-take P max_batch_turns _
          (sort-All turn_order P _ (All-filter P (λ e. text_eq (conversation_of e) target) due h))

    pub select_batch-All :
        (locale_compare : Text → Text → Ordering) (now : ℕ) (q : List QueueEnvelope)
        → All P q
        → All P (select_batch locale_compare now q).0 × All P (select_batch locale_compare now q).1
    unfolding select_batch
    select_batch-All locale_compare now q h =
        let due = filter (is_due now) (map revert q) in
        let batch = chosen (target_conversation locale_compare due) due in
        let in_batch : All P batch =
          chosen-All (target_conversation locale_compare due) due
            (All-filter P (is_due now) _ (revert-All q h)) in
        (
          in_batch,
          put_all-All queue_key P (map to_in_flight batch) _
              (All-map P to_in_flight batch stable.flying in_batch)
              (put_all-All queue_key P (map to_pending (filter (has_state in_flight) q)) q
                (All-map P to_pending _ stable.pending (All-filter P _ q h)) h),
        )

    module _ (status : Option ℕ) (now : ℕ)
        (retried : (e : QueueEnvelope)
          → leb max_attempts (e.attempts + 1) ≡ false
          → P e
          → P (retried_copy e now)) where
      apply_item-All :
          (e : QueueEnvelope) (p : Progress)
          → P e
          → All P p.queue
          → All P (apply_item status now e p).queue
      unfolding apply_item transient
      apply_item-All e p here h = ground (
        arith,
        delete-All queue_key P e.queue_id p.queue h,
        put-All queue_key P (to_auth_blocked e) p.queue (stable.blocked e here) h,
        put-All queue_key P (retried_copy e now) p.queue,
        retried e,
      )

      pub apply_items-All :
          (batch : List QueueEnvelope) (p : Progress)
          → All P batch
          → All P p.queue
          → All P (apply_items status now batch p).queue
      unfolding apply_items
      apply_items-All [] p b h = h
      apply_items-All (e ∷ batch) p (here, b) h =
          apply_items-All batch (apply_item status now e p) b (apply_item-All e p here h)

module _ (P : QueueEnvelope → Type 0) (Q : DeadLetter → Type 0) (status : Option ℕ) (now : ℕ)
    (permanent : (e : QueueEnvelope) → P e → Q (permanent_letter status e now))
    (exhausted : (e : QueueEnvelope)
      → leb max_attempts (e.attempts + 1) ≡ true
      → P e
      → Q (exhausted_letter e now)) where
  apply_item-dead_All :
      (e : QueueEnvelope) (p : Progress)
      → P e
      → All Q p.dead
      → All Q (apply_item status now e p).dead
  unfolding apply_item transient
  apply_item-dead_All e p here h = ground (
    arith,
    put-All dead_key Q (permanent_letter status e now) p.dead (permanent e here) h,
    put-All dead_key Q (exhausted_letter e now) p.dead,
    exhausted e,
  )

  pub apply_items-dead_All :
      (batch : List QueueEnvelope) (p : Progress)
      → All P batch
      → All Q p.dead
      → All Q (apply_items status now batch p).dead
  unfolding apply_items
  apply_items-dead_All [] p b h = h
  apply_items-dead_All (e ∷ batch) p (here, b) h =
      apply_items-dead_All batch (apply_item status now e p) b (apply_item-dead_All e p here h)
