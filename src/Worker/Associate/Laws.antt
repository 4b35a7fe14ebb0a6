-- ===== src/Worker/Associate/Laws.antt =====
-- No artifact is lost or shown twice, and each stands at a turn that it names.
use newell_ai.Common.{
  ℕ, ◌+◌, Bool, true, false, not, ◌&&◌, ◌||◌, List, [], ◌∷◌, map, length, ◌==◌, ◌≡◌, refl, ap, ◌∙◌,
  inl, inr, Bool-cases, arith, count_if, All, All-map_imp,
}
use newell_ai.Worker.Associate.{
  TurnKey, ArtifactLinkKey, Mark, Row, AssociateResult, by_turn_id, by_client_turn_id, claim,
  link_turn, link_turns, unmarked, is_claimed, unclaimed, associate_artifacts_to_turns,
}

-- How many artifacts at the turns pass a test.
unfoldable pub count_linked : (ArtifactLinkKey → Bool) → List Row → ℕ
count_linked q [] = 0
count_linked q (row ∷ rows) = count_if q row.artifacts + count_linked q rows

claim-count :
    (q p : ArtifactLinkKey → Bool) (marks : List Mark)
    → let (matched, marks') = claim p marks in
      count_if q matched + count_if q (unclaimed marks') ≡ count_if q (unclaimed marks)
unfolding claim unclaimed count_if
claim-count q p [] = refl
claim-count q p (m ∷ marks) = ground (arith, claim-count q p marks)

claim-length :
    (p : ArtifactLinkKey → Bool) (marks : List Mark) → length (claim p marks).1 ≡ length marks
unfolding claim
claim-length p [] = refl
claim-length p (m ∷ marks) = ground (arith, claim-length p marks)

unclaimed-length :
    (marks : List Mark) → count_if is_claimed marks + length (unclaimed marks) ≡ length marks
unfolding unclaimed count_if
unclaimed-length [] = refl
unclaimed-length (m ∷ marks) = ground (arith, unclaimed-length marks)

both : (a b : Bool) → (a && b) ≡ true → b ≡ true
both a b e = ground arith

claim-All :
    (p : ArtifactLinkKey → Bool) (marks : List Mark) → All (λ a. p a ≡ true) (claim p marks).0
unfolding claim
claim-All p [] = tt
claim-All p (m ∷ marks) = elim (Bool-cases (not m.claimed && p m.artifact)) [
  | inl e ↦ rw e (both (not m.claimed) (p m.artifact) e, claim-All p marks)
  | inr e ↦ rw e (claim-All p marks)
]

-- What is claimed stays claimed.
claim-keeps :
    (P : ArtifactLinkKey → Type 0) (p : ArtifactLinkKey → Bool) (marks : List Mark)
    → All P (unclaimed marks)
    → All P (unclaimed (claim p marks).1)
unfolding claim unclaimed
claim-keeps P p [] h = tt
claim-keeps P p (m ∷ marks) h = elim (Bool-cases m.claimed) [
  | inl c ↦ let rest : All P (unclaimed marks) = rw c at h in rw c (claim-keeps P p marks rest)
  | inr c ↦
      let (here, rest) : P m.artifact × All P (unclaimed marks) = rw c at h in
      elim (Bool-cases (p m.artifact)) [
        | inl e ↦ rw (c, e) (claim-keeps P p marks rest)
        | inr e ↦ rw (c, e) (here, claim-keeps P p marks rest)
      ]
]

-- Nothing that passes the test is left.
claim-leaves :
    (p : ArtifactLinkKey → Bool) (marks : List Mark)
    → All (λ a. p a ≡ false) (unclaimed (claim p marks).1)
unfolding claim unclaimed
claim-leaves p [] = tt
claim-leaves p (m ∷ marks) = elim (Bool-cases m.claimed) [
  | inl c ↦ rw c (claim-leaves p marks)
  | inr c ↦ elim (Bool-cases (p m.artifact)) [
    | inl e ↦ rw (c, e) (claim-leaves p marks)
    | inr e ↦ rw (c, e) (e, claim-leaves p marks)
  ]
]

none-count :
    (q : ArtifactLinkKey → Bool) (xs : List ArtifactLinkKey)
    → (length xs == 0) ≡ true
    → count_if q xs ≡ 0
unfolding count_if
none-count q [] e = refl
none-count q (x ∷ xs) e = ground arith

-- An artifact names a turn, by its id or by the client's.
abbrev pub names : TurnKey → ArtifactLinkKey → Bool
names t a = by_turn_id t a || by_client_turn_id t a

or_left : (a b : Bool) → a ≡ true → (a || b) ≡ true
or_left a b e = ground arith

or_right : (a b : Bool) → b ≡ true → (a || b) ≡ true
or_right a b e = ground arith

module _ (turn : TurnKey) (marks : List Mark) where
  abbrev IsCounted : (ArtifactLinkKey → Bool) → List ArtifactLinkKey × List Mark → Type 0
  IsCounted q x = count_if q x.0 + count_if q (unclaimed x.1) ≡ count_if q (unclaimed marks)

  link_turn-count : (q : ArtifactLinkKey → Bool) → IsCounted q (link_turn turn marks)
  unfolding link_turn
  link_turn-count q = elim (Bool-cases (length (claim (by_turn_id turn) marks).0 == 0)) [
    | inr e ↦ rw e (claim-count q (by_turn_id turn) marks)
    | inl e ↦ rw e (
        omega (
          arith,
          claim-count q (by_turn_id turn) marks,
          none-count q (claim (by_turn_id turn) marks).0 e,
          claim-count q (by_client_turn_id turn) (claim (by_turn_id turn) marks).1,
        ))
  ]

  link_turn-length : length (link_turn turn marks).1 ≡ length marks
  unfolding link_turn
  link_turn-length = elim (Bool-cases (length (claim (by_turn_id turn) marks).0 == 0)) [
    | inr e ↦ rw e (claim-length (by_turn_id turn) marks)
    | inl e ↦ rw e (
        claim-length (by_client_turn_id turn) (claim (by_turn_id turn) marks).1
        ∙ claim-length (by_turn_id turn) marks)
  ]

  link_turn-keeps :
      (P : ArtifactLinkKey → Type 0)
      → All P (unclaimed marks)
      → All P (unclaimed (link_turn turn marks).1)
  unfolding link_turn
  link_turn-keeps P h = elim (Bool-cases (length (claim (by_turn_id turn) marks).0 == 0)) [
    | inr e ↦ rw e (claim-keeps P (by_turn_id turn) marks h)
    | inl e ↦ rw e (
        claim-keeps P (by_client_turn_id turn) (claim (by_turn_id turn) marks).1
          (claim-keeps P (by_turn_id turn) marks h))
  ]

  link_turn-leaves : All (λ a. by_turn_id turn a ≡ false) (unclaimed (link_turn turn marks).1)
  unfolding link_turn
  link_turn-leaves = elim (Bool-cases (length (claim (by_turn_id turn) marks).0 == 0)) [
    | inr e ↦ rw e (claim-leaves (by_turn_id turn) marks)
    | inl e ↦ rw e (
        claim-keeps (λ a. by_turn_id turn a ≡ false) (by_client_turn_id turn)
          (claim (by_turn_id turn) marks).1 (claim-leaves (by_turn_id turn) marks))
  ]

  link_turn-All : All (λ a. names turn a ≡ true) (link_turn turn marks).0
  unfolding link_turn
  link_turn-All = elim (Bool-cases (length (claim (by_turn_id turn) marks).0 == 0)) [
    | inr e ↦ rw e (
        All-map_imp (λ a. by_turn_id turn a ≡ true) (λ a. names turn a ≡ true) _
          (λ a h. or_left _ _ h) (claim-All (by_turn_id turn) marks))
    | inl e ↦ rw e (
        All-map_imp (λ a. by_client_turn_id turn a ≡ true) (λ a. names turn a ≡ true) _
          (λ a h. or_right _ _ h)
          (claim-All (by_client_turn_id turn) (claim (by_turn_id turn) marks).1))
  ]

abbrev IsNamed : Row → Type 0
IsNamed row = All (λ a. names row.turn a ≡ true) row.artifacts

link_turns-count :
    (q : ArtifactLinkKey → Bool) (turns : List TurnKey) (marks : List Mark)
    → let (rows, marks') = link_turns turns marks in
      count_linked q rows + count_if q (unclaimed marks') ≡ count_if q (unclaimed marks)
unfolding link_turns count_linked
link_turns-count q [] marks = omega arith
link_turns-count q (turn ∷ turns) marks =
    omega (arith, link_turn-count turn marks q, link_turns-count q turns (link_turn turn marks).1)

link_turns-length :
    (turns : List TurnKey) (marks : List Mark) → length (link_turns turns marks).1 ≡ length marks
unfolding link_turns
link_turns-length [] marks = refl
link_turns-length (turn ∷ turns) marks =
    link_turns-length turns (link_turn turn marks).1 ∙ link_turn-length turn marks

marks-length :
    (artifacts : List ArtifactLinkKey) → length (map unmarked artifacts) ≡ length artifacts
marks-length [] = refl
marks-length (a ∷ artifacts) = omega (arith, marks-length artifacts)

link_turns-keeps :
    (P : ArtifactLinkKey → Type 0) (turns : List TurnKey) (marks : List Mark)
    → All P (unclaimed marks)
    → All P (unclaimed (link_turns turns marks).1)
unfolding link_turns
link_turns-keeps P [] marks h = h
link_turns-keeps P (turn ∷ turns) marks h =
    link_turns-keeps P turns (link_turn turn marks).1 (link_turn-keeps turn marks P h)

link_turns-leaves :
    (turns : List TurnKey) (marks : List Mark)
    → All
        (λ turn. All (λ a. by_turn_id turn a ≡ false) (unclaimed (link_turns turns marks).1))
        turns
unfolding link_turns
link_turns-leaves [] marks = tt
link_turns-leaves (turn ∷ turns) marks = (
  link_turns-keeps (λ a. by_turn_id turn a ≡ false) turns (link_turn turn marks).1
      (link_turn-leaves turn marks),
  link_turns-leaves turns (link_turn turn marks).1,
)

link_turns-All : (turns : List TurnKey) (marks : List Mark) → All IsNamed (link_turns turns marks).0
unfolding link_turns
link_turns-All [] marks = tt
link_turns-All (turn ∷ turns) marks =
    (link_turn-All turn marks, link_turns-All turns (link_turn turn marks).1)

link_turns-turns :
    (turns : List TurnKey) (marks : List Mark)
    → map (λ (row : Row). row.turn) (link_turns turns marks).0 ≡ turns
unfolding link_turns
link_turns-turns [] marks = refl
link_turns-turns (turn ∷ turns) marks =
    ap (λ ts. turn ∷ ts) (link_turns-turns turns (link_turn turn marks).1)

unclaimed-unmarked :
    (artifacts : List ArtifactLinkKey) → unclaimed (map unmarked artifacts) ≡ artifacts
unfolding unclaimed
unclaimed-unmarked [] = refl
unclaimed-unmarked (a ∷ artifacts) = ap (λ xs. a ∷ xs) (unclaimed-unmarked artifacts)

-- What the association promises for the turns and the artifacts of a conversation.
pub record IsAssociated (turns : List TurnKey) (artifacts : List ArtifactLinkKey)
    (r : AssociateResult) : Type 0 where
  pub in_order : map (λ (row : Row). row.turn) r.rows ≡ turns
  pub once :
      (q : ArtifactLinkKey → Bool)
      → count_linked q r.rows + count_if q r.unlinked ≡ count_if q artifacts
  pub named : All IsNamed r.rows
  pub counted :
      r.diagnostics.linked_count + r.diagnostics.unlinked_count ≡ r.diagnostics.artifact_count
  pub no_turn_id : All (λ turn. All (λ a. by_turn_id turn a ≡ false) r.unlinked) turns

-- The turns keep their order. Each artifact stands at one turn or among the unlinked, never at both
-- and never twice; where it stands at a turn, it names it by its id or the client's, and no
-- unlinked artifact names any of the turns by its id. The diagnostics count the artifacts at turns
-- and the unlinked ones, and together they are all.
pub associate_artifacts_to_turns-IsAssociated :
    (turns : List TurnKey) (artifacts : List ArtifactLinkKey)
    → IsAssociated turns artifacts (associate_artifacts_to_turns turns artifacts)
unfolding associate_artifacts_to_turns
associate_artifacts_to_turns-IsAssociated turns artifacts = record {
  in_order = link_turns-turns turns (map unmarked artifacts);
  once = λ q.
      link_turns-count q turns (map unmarked artifacts)
      ∙ ap (count_if q) (unclaimed-unmarked artifacts);
  counted =
      unclaimed-length (link_turns turns (map unmarked artifacts)).1
      ∙ link_turns-length turns (map unmarked artifacts)
      ∙ marks-length artifacts;
  named = link_turns-All turns (map unmarked artifacts);
  no_turn_id = link_turns-leaves turns (map unmarked artifacts);
}
