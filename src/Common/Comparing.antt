-- ===== src/Common/Comparing.antt =====
-- Three-way comparisons that are total orders up to ties, as `ORDER BY` chains them.
use Prim.Native.Nat.{Ordering}
use mathlib.Core.Path.{◌≡◌, refl, sym, subst}
use mathlib.Core.Logic.{◌⊎◌, inl, inr}
use mathlib.Core.Bool.{Bool, true, false}
use mathlib.Core.Option.{Option, none, some}
use native.Mathlib.Omega.{arith}
use newell_ai.Common.Int.{ℤ, leb_ℤ, leb_ℤ_total, leb_ℤ_trans}
use newell_ai.Common.Keys.{first_difference, text_cmp, text_cmp_eq, text_cmp_flip, text_cmp_trans}
use mathlib.Core.List.{List}
use newell_ai.Common.Sorting.{sort, IsSorted, sort-IsSorted}
use newell_ai.Common.Strings.{Text}
use newell_ai.Common.Tests.{if◌then◌else◌}

abbrev pub not_after : Ordering → Bool
not_after Ordering.gt = false
not_after Ordering.eq = true
not_after Ordering.lt = true

abbrev pub flipped : Ordering → Ordering
flipped Ordering.lt = Ordering.gt
flipped Ordering.eq = Ordering.eq
flipped Ordering.gt = Ordering.lt

-- `ORDER BY (x IS NULL) ASC, x ASC`
abbrev pub nulls_last : {A : Type 0} → (A → A → Ordering) → Option A → Option A → Ordering
nulls_last cmp none none = Ordering.eq
nulls_last cmp none (some b) = Ordering.gt
nulls_last cmp (some a) none = Ordering.lt
nulls_last cmp (some a) (some b) = cmp a b

-- `ORDER BY x DESC`
abbrev pub descending : {A : Type 0} → (A → A → Ordering) → A → A → Ordering
descending cmp a b = flipped (cmp a b)

abbrev pub cmp_ℤ : ℤ → ℤ → Ordering
cmp_ℤ a b = if leb_ℤ a b then (if leb_ℤ b a then Ordering.eq else Ordering.lt) else Ordering.gt

-- The comparison that decides, and where it ties the next.
abbrev pub then_by : {A : Type 0} → (A → A → Ordering) → (A → A → Ordering) → A → A → Ordering
then_by cmp next a b = first_difference (cmp a b) (next a b)

pub record IsComparison {A : Type 0} (cmp : A → A → Ordering) : Type 0 where
  pub flip : (a b : A) → cmp b a ≡ flipped (cmp a b)
  pub trans :
      (a b c : A)
      → not_after (cmp a b) ≡ true
      → not_after (cmp b c) ≡ true
      → not_after (cmp a c) ≡ true

not_after-flipped : (o : Ordering) → not_after o ≡ false → not_after (flipped o) ≡ true
not_after-flipped Ordering.lt e = ground arith
not_after-flipped Ordering.eq e = refl
not_after-flipped Ordering.gt e = refl

lex_flip :
    (x y x' y' : Ordering)
    → x' ≡ flipped x
    → y' ≡ flipped y
    → first_difference x' y' ≡ flipped (first_difference x y)
lex_flip Ordering.lt y x' y' e f = rw e refl
lex_flip Ordering.eq y x' y' e f = rw (e, f) refl
lex_flip Ordering.gt y x' y' e f = rw e refl

-- The six comparisons of three values by the first comparison, and three by the next.
lex_trans :
    (ab bc ac ab' bc' ac' : Ordering)
    → (not_after ab ≡ true → not_after bc ≡ true → not_after ac ≡ true)
    → (not_after bc ≡ true → not_after (flipped ac) ≡ true → not_after (flipped ab) ≡ true)
    → (not_after (flipped ac) ≡ true → not_after ab ≡ true → not_after (flipped bc) ≡ true)
    → (not_after ab' ≡ true → not_after bc' ≡ true → not_after ac' ≡ true)
    → not_after (first_difference ab ab') ≡ true
    → not_after (first_difference bc bc') ≡ true
    → not_after (first_difference ac ac') ≡ true
lex_trans Ordering.lt Ordering.lt Ordering.lt ab' bc' ac' t1 t2 t3 t h k = refl
lex_trans Ordering.lt Ordering.lt Ordering.eq ab' bc' ac' t1 t2 t3 t h k =
    let bad = t2 refl refl in ground arith
lex_trans Ordering.lt Ordering.lt Ordering.gt ab' bc' ac' t1 t2 t3 t h k =
    let bad = t1 refl refl in ground arith
lex_trans Ordering.lt Ordering.eq Ordering.lt ab' bc' ac' t1 t2 t3 t h k = refl
lex_trans Ordering.lt Ordering.eq Ordering.eq ab' bc' ac' t1 t2 t3 t h k =
    let bad = t2 refl refl in ground arith
lex_trans Ordering.lt Ordering.eq Ordering.gt ab' bc' ac' t1 t2 t3 t h k =
    let bad = t1 refl refl in ground arith
lex_trans Ordering.eq Ordering.lt Ordering.lt ab' bc' ac' t1 t2 t3 t h k = refl
lex_trans Ordering.eq Ordering.lt Ordering.eq ab' bc' ac' t1 t2 t3 t h k =
    let bad = t3 refl refl in ground arith
lex_trans Ordering.eq Ordering.lt Ordering.gt ab' bc' ac' t1 t2 t3 t h k =
    let bad = t1 refl refl in ground arith
lex_trans Ordering.eq Ordering.eq Ordering.lt ab' bc' ac' t1 t2 t3 t h k = refl
lex_trans Ordering.eq Ordering.eq Ordering.eq ab' bc' ac' t1 t2 t3 t h k = t h k
lex_trans Ordering.eq Ordering.eq Ordering.gt ab' bc' ac' t1 t2 t3 t h k =
    let bad = t1 refl refl in ground arith
lex_trans Ordering.gt bc ac ab' bc' ac' t1 t2 t3 t h k = ground arith
lex_trans Ordering.lt Ordering.gt ac ab' bc' ac' t1 t2 t3 t h k = ground arith
lex_trans Ordering.eq Ordering.gt ac ab' bc' ac' t1 t2 t3 t h k = ground arith

le_cases : (a b : Text) → not_after (text_cmp a b) ≡ true → (text_cmp a b ≡ Ordering.lt) ⊎ (a ≡ b)
le_cases a b h = from (text_cmp a b) refl h
  where
    from :
        (o : Ordering)
        → text_cmp a b ≡ o
        → not_after o ≡ true
        → (text_cmp a b ≡ Ordering.lt) ⊎ (a ≡ b)
    from Ordering.lt e k = inl e
    from Ordering.eq e k = inr ((text_cmp_eq a b).0 e)
    from Ordering.gt e k = ground arith

text_le_trans :
    (a b c : Text)
    → not_after (text_cmp a b) ≡ true
    → not_after (text_cmp b c) ≡ true
    → not_after (text_cmp a c) ≡ true
text_le_trans a b c h k = elim (le_cases a b h) [
  | inr e ↦ subst (λ x. not_after (text_cmp x c) ≡ true) (sym e) k
  | inl l ↦ elim (le_cases b c k) [
    | inr e ↦ subst (λ x. not_after (text_cmp a x) ≡ true) e h
    | inl m ↦ rw (text_cmp_trans a b c l m) refl
  ]
]

pub text_cmp-IsComparison : IsComparison text_cmp
text_cmp-IsComparison = record {
  flip =
      λ a b. ground (arith, text_cmp_eq a b, text_cmp_eq b a, text_cmp_flip a b, text_cmp_flip b a);
  trans = text_le_trans;
}

pub cmp_ℤ-IsComparison : IsComparison cmp_ℤ
cmp_ℤ-IsComparison = record {
  flip = λ a b. ground (arith, leb_ℤ_total a b);
  trans = λ a b c h k.
      ground (arith, leb_ℤ_trans a b c, leb_ℤ_total a b, leb_ℤ_total b c, leb_ℤ_total a c);
}

module _ {A : Type 0} where
  pub descending-IsComparison :
      (cmp : A → A → Ordering) → IsComparison cmp → IsComparison (descending cmp)
  descending-IsComparison cmp h = record {
    flip = λ a b. rw (h.flip a b) refl;
    trans = λ a b c p q.
        subst (λ o. not_after o ≡ true) (h.flip a c)
          (h.trans c b a (subst (λ o. not_after o ≡ true) (sym (h.flip b c)) q)
            (subst (λ o. not_after o ≡ true) (sym (h.flip a b)) p));
  }

  pub then_by-IsComparison :
      (cmp next : A → A → Ordering)
      → IsComparison cmp
      → IsComparison next
      → IsComparison (then_by cmp next)
  then_by-IsComparison cmp next h k = record {
    flip = λ a b. lex_flip (cmp a b) (next a b) _ _ (h.flip a b) (k.flip a b);
    trans = λ a b c.
        lex_trans (cmp a b) (cmp b c) (cmp a c) (next a b) (next b c) (next a c) (h.trans a b c)
          (λ p q. rw (sym (h.flip a b)) (h.trans b c a p (rw (h.flip a c) q)))
          (λ p q. rw (sym (h.flip b c)) (h.trans c a b (rw (h.flip a c) p) q)) (k.trans a b c);
  }

  pub on-IsComparison :
      {B : Type 0} (f : B → A) (cmp : A → A → Ordering)
      → IsComparison cmp
      → IsComparison (λ a b. cmp (f a) (f b))
  on-IsComparison f cmp h = record {
    flip = λ a b. h.flip (f a) (f b);
    trans = λ a b c. h.trans (f a) (f b) (f c);
  }

  nulls_last_flip :
      (cmp : A → A → Ordering)
      → IsComparison cmp
      → (a b : Option A) → nulls_last cmp b a ≡ flipped (nulls_last cmp a b)
  nulls_last_flip cmp h none none = refl
  nulls_last_flip cmp h none (some b) = refl
  nulls_last_flip cmp h (some a) none = refl
  nulls_last_flip cmp h (some a) (some b) = h.flip a b

  nulls_last_trans :
      (cmp : A → A → Ordering)
      → IsComparison cmp
      → (a b c : Option A) → not_after (nulls_last cmp a b) ≡ true
      → not_after (nulls_last cmp b c) ≡ true
      → not_after (nulls_last cmp a c) ≡ true
  nulls_last_trans cmp h none none c p q = q
  nulls_last_trans cmp h none (some b) c p q = ground arith
  nulls_last_trans cmp h (some a) b none p q = refl
  nulls_last_trans cmp h (some a) none (some c) p q = ground arith
  nulls_last_trans cmp h (some a) (some b) (some c) p q = h.trans a b c p q

  pub nulls_last-IsComparison :
      (cmp : A → A → Ordering) → IsComparison cmp → IsComparison (nulls_last cmp)
  nulls_last-IsComparison cmp h = record {
    flip = nulls_last_flip cmp h;
    trans = nulls_last_trans cmp h;
  }

  -- Sorting by a comparison orders the members.
  pub sort-IsOrdered :
      (cmp : A → A → Ordering)
      → IsComparison cmp
      → (xs : List A)
      → let le : A → A → Bool = λ a b. not_after (cmp a b) in
        IsSorted (λ a b. le a b ≡ true) (sort le xs)
  sort-IsOrdered cmp h xs =
      sort-IsSorted (λ a b. not_after (cmp a b)) (λ a b. not_after (cmp a b) ≡ true) (λ a b e. e)
        (λ a b e. rw (h.flip a b) (not_after-flipped (cmp a b) e)) h.trans xs
