-- ===== src/Queue/Sync/Distinct.antt =====
-- The batch of an ordered queue has each id once, so every record of it meets its own fate.
use newell_ai.Common.{
  ℕ, zero, suc, Text, text_eq, Option, none, some, Bool, false, ◌≡◌, arith, List, [], ◌∷◌, map,
  filter, take, All, All-filter, All-take, inl, inr, Bool-cases, Ordering,
}
use newell_ai.Common.Keys.{text_order, same_key, same_key_sym}
use newell_ai.Common.Sorting.{insert, insert-All, sort}
use newell_ai.Idb.{get}
use newell_ai.Idb.Ordered.{IsBelow}
use newell_ai.Queue.Types.{QueueEnvelope, max_batch_turns, SyncOutcome}
use newell_ai.Queue.Db.{QueueDb, queue_key, dead_key}
use newell_ai.Queue.Operations.{set_status}
use newell_ai.Queue.Recovery.{IsQueueOrdered}
use newell_ai.Queue.Sync.Select.{
  select_batch, batch_of, chosen, conversation_of, target_conversation, is_due, revert, turn_order,
}
use newell_ai.Queue.Sync.Result.{apply_result}
use newell_ai.Queue.Sync.Delivery.{
  HasDistinctIds, IsOutside, queue_fate, dead_fate, or_before, apply_items-fate,
}

IsOutside-of_below : (k : Text) (q : List QueueEnvelope) → IsBelow queue_key k q → IsOutside k q
IsOutside-of_below k [] h = tt
IsOutside-of_below k (e ∷ q) (h, hs) = (ground arith, IsOutside-of_below k q hs)

ordered-HasDistinctIds : (q : List QueueEnvelope) → IsQueueOrdered q → HasDistinctIds q
ordered-HasDistinctIds [] h = tt
ordered-HasDistinctIds (e ∷ q) (h, hs) =
    (IsOutside-of_below e.queue_id q h, ordered-HasDistinctIds q hs)

revert-IsOutside : (k : Text) (q : List QueueEnvelope) → IsOutside k q → IsOutside k (map revert q)
revert-IsOutside k [] h = tt
revert-IsOutside k (e ∷ q) (h, hs) = (ground arith, revert-IsOutside k q hs)

revert-HasDistinctIds : (q : List QueueEnvelope) → HasDistinctIds q → HasDistinctIds (map revert q)
revert-HasDistinctIds [] h = tt
revert-HasDistinctIds (e ∷ q) (h, hs) =
    (ground (arith, revert-IsOutside e.queue_id q h), revert-HasDistinctIds q hs)

filter-HasDistinctIds :
    (p : QueueEnvelope → Bool) (q : List QueueEnvelope)
    → HasDistinctIds q
    → HasDistinctIds (filter p q)
unfolding filter
filter-HasDistinctIds p [] h = tt
filter-HasDistinctIds p (e ∷ q) (h, hs) = elim (Bool-cases (p e)) [
  | inl good ↦ rw good (All-filter _ p q h, filter-HasDistinctIds p q hs)
  | inr bad ↦ rw bad (filter-HasDistinctIds p q hs)
]

insert-HasDistinctIds :
    (x : QueueEnvelope) (xs : List QueueEnvelope)
    → IsOutside x.queue_id xs
    → HasDistinctIds xs
    → HasDistinctIds (insert turn_order x xs)
unfolding insert
insert-HasDistinctIds x [] h d = (tt, tt)
insert-HasDistinctIds x (y ∷ ys) (h, hs) (d, ds) = elim (Bool-cases (turn_order x y)) [
  | inl before ↦ rw before ((h, hs), (d, ds))
  | inr behind ↦ rw behind (
    insert-All turn_order (λ z. same_key y.queue_id z.queue_id ≡ false) x ys
        (same_key_sym x.queue_id y.queue_id h) d,
    insert-HasDistinctIds x ys hs ds,
  )
]

sort-IsOutside :
    (k : Text) (xs : List QueueEnvelope) → IsOutside k xs → IsOutside k (sort turn_order xs)
unfolding sort
sort-IsOutside k [] h = tt
sort-IsOutside k (x ∷ xs) (h, hs) = insert-All turn_order _ x _ h (sort-IsOutside k xs hs)

sort-HasDistinctIds :
    (xs : List QueueEnvelope) → HasDistinctIds xs → HasDistinctIds (sort turn_order xs)
unfolding sort
sort-HasDistinctIds [] h = tt
sort-HasDistinctIds (x ∷ xs) (h, hs) =
    insert-HasDistinctIds x _ (sort-IsOutside x.queue_id xs h) (sort-HasDistinctIds xs hs)

take-HasDistinctIds :
    (n : ℕ) (xs : List QueueEnvelope) → HasDistinctIds xs → HasDistinctIds (take n xs)
take-HasDistinctIds zero xs h = tt
take-HasDistinctIds (suc n) [] h = tt
take-HasDistinctIds (suc n) (x ∷ xs) (h, hs) = (All-take _ n xs h, take-HasDistinctIds n xs hs)

chosen-HasDistinctIds :
    (t : Option Text) (due : List QueueEnvelope)
    → HasDistinctIds due
    → HasDistinctIds (chosen t due)
unfolding batch_of
chosen-HasDistinctIds none due h = tt
chosen-HasDistinctIds (some target) due h =
    take-HasDistinctIds max_batch_turns _ (
      sort-HasDistinctIds _ (filter-HasDistinctIds (λ e. text_eq (conversation_of e) target) due h))

pub select_batch-HasDistinctIds :
    (locale_compare : Text → Text → Ordering) (now : ℕ) (q : List QueueEnvelope)
    → IsQueueOrdered q
    → HasDistinctIds (select_batch locale_compare now q).0
unfolding select_batch
select_batch-HasDistinctIds locale_compare now q h =
    chosen-HasDistinctIds (target_conversation locale_compare (filter (is_due now) (map revert q)))
      _
      (filter-HasDistinctIds (is_due now) (map revert q)
        (revert-HasDistinctIds q (ordered-HasDistinctIds q h)))

-- The batch that `syncOnce` chose from an ordered queue, after the response: whatever the stores
-- hold by then, each of its records leaves the queue on 200, is held with its attempts unchanged
-- on 401, becomes a dead letter on 400, 404 and 405, and on any other answer or none becomes
-- pending with one more attempt and its backoff, or a dead letter at the fifth attempt.
pub apply_result-fate :
    (locale_compare : Text → Text → Ordering) (now : ℕ) (q : List QueueEnvelope) (later : QueueDb)
    (status : Option ℕ) (outcome : SyncOutcome) (diagnostic : Option Text)
    → IsQueueOrdered q
    → let batch = (select_batch locale_compare now q).0 in
      let db = (apply_result later batch status now outcome diagnostic).1 in
      All
        (λ e.
          (get queue_key e.queue_id db.queue ≡ queue_fate status now e)
          × (get dead_key e.queue_id db.dead
              ≡ or_before (dead_fate status now e) (get dead_key e.queue_id later.dead)))
        batch
unfolding apply_result set_status
apply_result-fate locale_compare now q later status outcome diagnostic h =
    apply_items-fate status now (select_batch locale_compare now q).0
      (record { queue = later.queue; dead = later.dead; outcome = outcome })
      (select_batch-HasDistinctIds locale_compare now q h)
