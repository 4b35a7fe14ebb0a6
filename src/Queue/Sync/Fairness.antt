-- ===== src/Queue/Sync/Fairness.antt =====
-- The oldest conversation goes first, and a due record is never left without a batch.
use newell_ai.Common.{
  ℕ, ◌≤◌, Text, text_eq, text_eq_iff, Option, none, some, ◌≡◌, ◌≢◌, refl, ap, arith, List, [], ◌∷◌,
  map, filter, take, ltb, Ordering, ◌⊎◌, inl, inr, Bool-cases, All, Any, Any-filter, All-map_imp,
}
use newell_ai.Common.Sorting.{sort, sort-All, sort-Any, sort-IsSorted, IsSorted}
use newell_ai.Queue.Types.{QueueEnvelope, max_batch_turns}
use newell_ai.Queue.Sync.Select.{
  conversation_of, note_oldest, oldest_by_conversation, turn_order, batch_of, entry_order,
  first_key, target_conversation, chosen, select_batch, is_due, revert,
}
use newell_ai.Queue.Sync.Selection.{due_records}

-- Some record of the conversation was enqueued at the time.
abbrev pub HasTime : List QueueEnvelope → Text → ℕ → Type 0
HasTime due c t = Any (λ e. (conversation_of e ≡ c) × (e.enqueued_at ≡ t)) due

-- An entry of the map for the conversation, with no later time.
abbrev Covers : Text → ℕ → List (Text × ℕ) → Type 0
Covers c t m = Any (λ x. (x.0 ≡ c) × (x.1 ≤ t)) m

module _ (id : Text) (t : ℕ) where
  note_oldest-All :
      (P : Text → ℕ → Type 0) (m : List (Text × ℕ))
      → P id t
      → All (λ x. P x.0 x.1) m
      → All (λ x. P x.0 x.1) (note_oldest id t m)
  unfolding note_oldest
  note_oldest-All P [] p h = (p, tt)
  note_oldest-All P ((c, u) ∷ m) p (h, hs) = elim (Bool-cases (text_eq c id)) [
    | inl e ↦ elim (Bool-cases (ltb t u)) [
      | inl early ↦ rw (e, early) (rw ((text_eq_iff c id).0 e) p, hs)
      | inr late ↦ rw (e, late) (h, hs)
    ]
    | inr e ↦ rw e (h, note_oldest-All P m p hs)
  ]

  note_oldest-Covers_self : (m : List (Text × ℕ)) → Covers id t (note_oldest id t m)
  unfolding note_oldest
  note_oldest-Covers_self [] = inl (refl, omega arith)
  note_oldest-Covers_self ((c, u) ∷ m) = elim (Bool-cases (text_eq c id)) [
    | inl e ↦ rw e (inl ((text_eq_iff c id).0 e, ground arith))
    | inr e ↦ rw e (inr (note_oldest-Covers_self m))
  ]

  note_oldest-Covers :
      (d : Text) (v : ℕ) (m : List (Text × ℕ)) → Covers d v m → Covers d v (note_oldest id t m)
  unfolding note_oldest
  note_oldest-Covers d v [] h = elim h [ ]
  note_oldest-Covers d v ((c, u) ∷ m) (inl (same, le)) = elim (Bool-cases (text_eq c id)) [
    | inl e ↦ rw e (inl (same, ground arith))
    | inr e ↦ rw e (inl (same, le))
  ]
  note_oldest-Covers d v ((c, u) ∷ m) (inr h) = elim (Bool-cases (text_eq c id)) [
    | inl e ↦ rw e (inr h)
    | inr e ↦ rw e (inr (note_oldest-Covers d v m h))
  ]

module _ (P : Text → ℕ → Type 0) where
  oldest-All :
      (m : List (Text × ℕ)) (xs : List QueueEnvelope)
      → All (λ e. P (conversation_of e) e.enqueued_at) xs
      → All (λ x. P x.0 x.1) m
      → All (λ x. P x.0 x.1) (oldest_by_conversation m xs)
  unfolding oldest_by_conversation
  oldest-All m [] h k = k
  oldest-All m (e ∷ xs) (h, hs) k =
      oldest-All (note_oldest (conversation_of e) e.enqueued_at m) xs hs
        (note_oldest-All (conversation_of e) e.enqueued_at P m h k)

oldest-Covers_kept :
    (d : Text) (v : ℕ) (m : List (Text × ℕ)) (xs : List QueueEnvelope)
    → Covers d v m
    → Covers d v (oldest_by_conversation m xs)
unfolding oldest_by_conversation
oldest-Covers_kept d v m [] h = h
oldest-Covers_kept d v m (e ∷ xs) h =
    oldest-Covers_kept d v (note_oldest (conversation_of e) e.enqueued_at m) xs
      (note_oldest-Covers (conversation_of e) e.enqueued_at d v m h)

oldest-Covers :
    (m : List (Text × ℕ)) (xs : List QueueEnvelope)
    → All (λ e. Covers (conversation_of e) e.enqueued_at (oldest_by_conversation m xs)) xs
unfolding oldest_by_conversation
oldest-Covers m [] = tt
oldest-Covers m (e ∷ xs) =
    let m' = note_oldest (conversation_of e) e.enqueued_at m in
    (
      oldest-Covers_kept (conversation_of e) e.enqueued_at m' xs
          (note_oldest-Covers_self (conversation_of e) e.enqueued_at m),
      oldest-Covers m' xs,
    )

-- Each record witnesses its own conversation and time.
HasTime-self :
    (xs : List QueueEnvelope) → All (λ e. HasTime xs (conversation_of e) e.enqueued_at) xs
HasTime-self [] = tt
HasTime-self (e ∷ xs) = (
  inl (refl, refl),
  All-map_imp (λ d. HasTime xs (conversation_of d) d.enqueued_at) _ xs (λ d h. inr h)
      (HasTime-self xs),
)

-- A conversation whose oldest due record is as old as any due record.
pub record IsOldest (due : List QueueEnvelope) (target : Text) : Type 0 where
  pub time : ℕ
  pub has : HasTime due target time
  pub first : All (λ e. time ≤ e.enqueued_at) due

abbrev Earlier : Text × ℕ → Text × ℕ → Type 0
Earlier a b = a.1 ≤ b.1

first-Covers :
    (x : Text × ℕ) (m : List (Text × ℕ)) (c : Text) (t : ℕ)
    → All (Earlier x) m
    → Covers c t (x ∷ m)
    → x.1 ≤ t
first-Covers x m c t h (inl (_, le)) = le
first-Covers x [] c t h (inr k) = elim k [ ]
first-Covers x (y ∷ m) c t h (inr (inl k)) = omega (arith, h.0, k.1)
first-Covers x (y ∷ m) c t h (inr (inr k)) = first-Covers x m c t h.1 (inr k)

module _ (locale_compare : Text → Text → Ordering) (due : List QueueEnvelope) where
  first_key-IsOldest :
      (entries : List (Text × ℕ))
      → IsSorted Earlier entries
      → All (λ x. HasTime due x.0 x.1) entries
      → All (λ e. Covers (conversation_of e) e.enqueued_at entries) due
      → ((first_key entries ≡ none) × (due ≡ []))
        ⊎ ((target : Text) × (first_key entries ≡ some target) × IsOldest due target)
  first_key-IsOldest [] sorted sound covered = inl (refl, none_due due covered)
    where
      none_due :
          (xs : List QueueEnvelope)
          → All (λ e. Covers (conversation_of e) e.enqueued_at []) xs
          → xs ≡ []
      none_due [] h = refl
      none_due (x ∷ xs) (h, _) = elim h [ ]
  first_key-IsOldest (x ∷ m) (low, _) (has, _) covered = inr (
    x.0,
    refl,
    record {
      time = x.1;
      has = has;
      first =
          All-map_imp (λ e. Covers (conversation_of e) e.enqueued_at (x ∷ m)) _ due
            (λ e h. first-Covers x m _ _ low h) covered;
    },
  )

  target_conversation-IsOldest :
      ((target_conversation locale_compare due ≡ none) × (due ≡ []))
      ⊎ ((target : Text) × (target_conversation locale_compare due ≡ some target)
          × IsOldest due target)
  unfolding target_conversation
  target_conversation-IsOldest =
      let m = oldest_by_conversation [] due in
      let le = entry_order locale_compare in
      first_key-IsOldest (sort le m)
        (sort-IsSorted le Earlier (λ a b h. ground arith) (λ a b h. ground arith)
          (λ a b c h k. omega arith) m)
        (sort-All le (λ x. HasTime due x.0 x.1) m
          (oldest-All (HasTime due) [] due (HasTime-self due) tt))
        (All-map_imp (λ e. Covers (conversation_of e) e.enqueued_at m) _ due
          (λ e h. sort-Any le (λ x. (x.0 ≡ conversation_of e) × (x.1 ≤ e.enqueued_at)) m h)
          (oldest-Covers [] due))

batch_of_filled :
    (target : Text) (t : ℕ) (due : List QueueEnvelope)
    → HasTime due target t
    → batch_of target due ≢ []
unfolding batch_of
batch_of_filled target t due h none_left =
    let found =
      sort-Any turn_order (λ e. (conversation_of e ≡ target) × (e.enqueued_at ≡ t)) _
        (Any-filter (λ e. (conversation_of e ≡ target) × (e.enqueued_at ≡ t))
          (λ e. text_eq (conversation_of e) target) due (λ e k. (text_eq_iff _ _).1 k.0) h) in
    take_empty _ _ none_left found
  where
    take_empty :
        (P : QueueEnvelope → Type 0) (xs : List QueueEnvelope)
        → take max_batch_turns xs ≡ []
        → Any P xs
        → ⊥
    take_empty P [] e k = k
    take_empty P (x ∷ xs) e k = cc

-- Nothing is due and the batch is empty, or the batch is not empty and is the batch of the
-- conversation that holds the record enqueued first among all that are due.
pub select_batch-IsOldest :
    (locale_compare : Text → Text → Ordering) (now : ℕ) (q : List QueueEnvelope)
    → let batch = (select_batch locale_compare now q).0 in
      ((due_records now q ≡ []) × (batch ≡ []))
      ⊎ ((target : Text) × IsOldest (due_records now q) target
          × (batch ≡ batch_of target (due_records now q))
          × (batch ≢ []))
unfolding select_batch due_records
select_batch-IsOldest locale_compare now q =
    let due = filter (is_due now) (map revert q) in
    elim (target_conversation-IsOldest locale_compare due) [
      | inl (e, empty) ↦ inl (empty, ap (λ (o : Option Text). chosen o due) e)
      | inr (target, e, oldest) ↦ inr (
        target,
        oldest,
        ap (λ (o : Option Text). chosen o due) e,
        rw e (batch_of_filled target oldest.time due oldest.has),
      )
    ]
