-- ===== src/Artifacts/Sync/Oldest.antt =====
-- What `selectDueArtifact` chooses.
use newell_ai.Common.{
  subst, ℕ, ◌≤◌, none, some, true, ◌≡◌, refl, ◌∙◌, arith, List, [], ◌∷◌, map, filter, All, Bool,
  Bool-cases, ◌⊎◌, Option-cases, inl, inr,
}
use newell_ai.Common.Keys.{text_order}
use newell_ai.Common.Sorting.{IsSorted, sort-IsSorted, All-sort}
use newell_ai.Idb.{put, get}
use newell_ai.Artifacts.Types.{ArtifactQueueEnvelope, artifact_key}
use newell_ai.Artifacts.Sync.Select.{
  revert_artifact, is_artifact_due, age_order, first_of, first_due, start_transfer,
  select_due_artifact,
}
use newell_ai.Artifacts.Sync.Again.{
  IsArtifactOrdered, revert_all-IsArtifactOrdered, first_due_lem, first_due-is_artifact_due,
  select_due_artifact_lem,
}

-- `e` is due and the oldest of the due records.
pub record IsOldestDue (now : ℕ) (all : List ArtifactQueueEnvelope) (e : ArtifactQueueEnvelope)
    : Type 0 where
  pub stored : get artifact_key e.queue_id all ≡ some e
  pub due : is_artifact_due now e ≡ true
  pub oldest : All (λ x. is_artifact_due now x ≡ true → e.enqueued_at ≤ x.enqueued_at) all

All-of_filter :
    {A : Type 0} (P : A → Type 0) (p : A → Bool) (xs : List A)
    → All P (filter p xs)
    → All (λ x. p x ≡ true → P x) xs
unfolding filter
All-of_filter P p [] h = tt
All-of_filter P p (x ∷ xs) h = elim (Bool-cases (p x)) [
  | inl e ↦
      let (px, rest) : P x × All P (filter p xs) = rw e at h in
      ((λ k. px), All-of_filter P p xs rest)
  | inr e ↦ ((λ k. cc), All-of_filter P p xs (rw e at h))
]

abbrev pub IsNoOlder : ArtifactQueueEnvelope → ArtifactQueueEnvelope → Type 0
IsNoOlder a b = a.enqueued_at ≤ b.enqueued_at

first_of-IsSorted :
    (xs : List ArtifactQueueEnvelope) (e : ArtifactQueueEnvelope)
    → IsSorted IsNoOlder xs
    → first_of xs ≡ some e
    → All (IsNoOlder e) xs
first_of-IsSorted [] e h found = cc
first_of-IsSorted (x ∷ xs) e (hx, hs) found =
    let same : x ≡ e = cc in subst (λ y. All (IsNoOlder y) (x ∷ xs)) same (omega arith, hx)

first_due-IsOldestDue :
    (now : ℕ) (all : List ArtifactQueueEnvelope) (e : ArtifactQueueEnvelope)
    → IsArtifactOrdered all
    → first_due now all ≡ some e
    → IsOldestDue now all e
unfolding first_due
first_due-IsOldestDue now all e h found = record {
  stored = first_due_lem now all e h found;
  due = first_due-is_artifact_due now all e found;
  oldest = All-of_filter (IsNoOlder e) (is_artifact_due now) all (
      All-sort age_order (IsNoOlder e) _ (
        first_of-IsSorted _ e
          (sort-IsSorted age_order IsNoOlder (λ a b k. ground arith) (λ a b k. ground arith)
            (λ a b c k l. omega arith) (filter (is_artifact_due now) all))
          found));
}

first_of-none : {A : Type 0} (P : A → Type 0) (xs : List A) → first_of xs ≡ none → All P xs
first_of-none P [] h = tt
first_of-none P (x ∷ xs) h = cc

first_due-none :
    (now : ℕ) (all : List ArtifactQueueEnvelope)
    → first_due now all ≡ none
    → All (λ x. is_artifact_due now x ≡ true → ⊥) all
unfolding first_due
first_due-none now all none_due =
    All-of_filter (λ x. ⊥) (is_artifact_due now) all
      (All-sort age_order (λ x. ⊥) _ (first_of-none (λ x. ⊥) _ none_due))

-- Among the records of an ordered store, those of abandoned transfers taken as pending: the
-- selection is the oldest that is due, marked as in flight and stored so, or nothing is due and
-- nothing is selected. All other records stay as they are.
pub select_due_artifact-IsOldestDue :
    (now : ℕ) (q : List ArtifactQueueEnvelope)
    → IsArtifactOrdered q
    → let all = map revert_artifact q in
      ((select_due_artifact now q ≡ (none, all)) × All (λ x. is_artifact_due now x ≡ true → ⊥) all)
      ⊎ ((e : ArtifactQueueEnvelope) × IsOldestDue now all e
          × (select_due_artifact now q
              ≡ (some (start_transfer e), put artifact_key (start_transfer e) all)))
select_due_artifact-IsOldestDue now q h =
    let all = map revert_artifact q in
    elim (Option-cases (first_due now all)) [
      | inl idle ↦ inl (select_due_artifact_lem now q h ∙ rw idle refl, first_due-none now all idle)
      | inr (e, found) ↦ inr (
        e,
        first_due-IsOldestDue now all e (revert_all-IsArtifactOrdered q h) found,
        select_due_artifact_lem now q h ∙ rw found refl,
      )
    ]
