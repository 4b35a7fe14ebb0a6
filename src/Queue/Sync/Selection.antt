-- ===== src/Queue/Sync/Selection.antt =====
-- What `select_batch` chooses.
use newell_ai.Common.{
  ℕ, zero, suc, ◌≤◌, Text, text_eq, text_eq_iff, Option, none, some, true, ◌≡◌, arith, List, [],
  ◌∷◌, map, filter, take, length, leb→le, Ordering, All, All-take, All-filter, length-take-le,
  filter-All_true, All-map_imp, and_parts,
}
use newell_ai.Common.Int.{leb_ℤ_total, leb_ℤ_trans}
use newell_ai.Common.Sorting.{sort, sort-All, sort-IsSorted, IsSorted}
use newell_ai.Queue.Types.{QueueEnvelope, pending, max_batch_turns}
use newell_ai.Queue.Operations.{has_state}
use newell_ai.Queue.Sync.Select.{
  revert, conversation_of, is_due, turn_order, batch_of, target_conversation, chosen, select_batch,
}

abbrev pub InOrder : QueueEnvelope → QueueEnvelope → Type 0
InOrder a b = turn_order a b ≡ true

-- The promise of a batch.
pub record IsBatch (now : ℕ) (target : Text) (batch : List QueueEnvelope) : Type 0 where
  pub same_conversation : All (λ e. conversation_of e ≡ target) batch
  pub pending : All (λ e. has_state pending e ≡ true) batch
  pub due : All (λ e. e.next_attempt_at ≤ now) batch
  pub in_order : IsSorted InOrder batch
  pub small : length batch ≤ max_batch_turns

IsSorted-take :
    {A : Type 0} (R : A → A → Type 0) (n : ℕ) (xs : List A) → IsSorted R xs → IsSorted R (take n xs)
IsSorted-take R zero xs h = tt
IsSorted-take R (suc n) [] h = tt
IsSorted-take R (suc n) (x ∷ xs) (h, hs) = (All-take (R x) n xs h, IsSorted-take R n xs hs)

module _ (target : Text) (due : List QueueEnvelope) where
  abbrev members : List QueueEnvelope
  members = filter (λ e. text_eq (conversation_of e) target) due

  batch_of-All : (P : QueueEnvelope → Type 0) → All P members → All P (batch_of target due)
  unfolding batch_of
  batch_of-All P h = All-take P max_batch_turns _ (sort-All turn_order P members h)

  batch_of-IsSorted : IsSorted InOrder (batch_of target due)
  unfolding batch_of
  batch_of-IsSorted = IsSorted-take InOrder max_batch_turns _ (
      sort-IsSorted turn_order InOrder (λ a b h. h) (λ a b h. leb_ℤ_total _ _ h)
        (λ a b c h k. leb_ℤ_trans _ _ _ h k) members)

  batch_of-small : length (batch_of target due) ≤ max_batch_turns
  unfolding batch_of
  batch_of-small = length-take-le max_batch_turns (sort turn_order members)

  batch_of-same : All (λ e. conversation_of e ≡ target) (batch_of target due)
  batch_of-same =
      batch_of-All (λ e. conversation_of e ≡ target)
        (All-map_imp (λ e. text_eq (conversation_of e) target ≡ true) _ members
          (λ e h. (text_eq_iff _ _).0 h) (filter-All_true _ due))

unfoldable pub due_records : ℕ → List QueueEnvelope → List QueueEnvelope
due_records now q = filter (is_due now) (map revert q)

module _ (now : ℕ) (q : List QueueEnvelope) where
  due_records-due : All (λ e. is_due now e ≡ true) (due_records now q)
  unfolding due_records
  due_records-due = filter-All_true (is_due now) (map revert q)

  batch_of-IsBatch : (target : Text) → IsBatch now target (batch_of target (due_records now q))
  batch_of-IsBatch target =
      let due : All (λ e. is_due now e ≡ true) (batch_of target (due_records now q)) =
        batch_of-All target (due_records now q) _
          (All-filter (λ e. is_due now e ≡ true) _ (due_records now q) due_records-due) in
      record {
        same_conversation = batch_of-same target (due_records now q);
        pending = All-map_imp (λ e. is_due now e ≡ true) _ _ (λ e h. (and_parts _ _ h).0) due;
        due =
            All-map_imp (λ e. is_due now e ≡ true) _ _ (λ e h. leb→le _ _ (and_parts _ _ h).1) due;
        in_order = batch_of-IsSorted target (due_records now q);
        small = batch_of-small target (due_records now q);
      }

  chosen-IsBatch :
      (t : Option Text) → (target : Text) × IsBatch now target (chosen t (due_records now q))
  chosen-IsBatch none = (
    [],
    record { same_conversation = tt; pending = tt; due = tt; in_order = tt; small = omega arith },
  )
  chosen-IsBatch (some target) = (target, batch_of-IsBatch target)

  -- Whatever `localeCompare` does, the batch has one conversation, only records that were pending
  -- or abandoned in flight and are due, the order of their sequence numbers, and 25 turns at most.
  pub select_batch-IsBatch :
      (locale_compare : Text → Text → Ordering)
      → (target : Text) × IsBatch now target (select_batch locale_compare now q).0
  unfolding select_batch due_records
  select_batch-IsBatch locale_compare =
      chosen-IsBatch (target_conversation locale_compare (filter (is_due now) (map revert q)))
