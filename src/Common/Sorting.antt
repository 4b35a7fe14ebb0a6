-- ===== src/Common/Sorting.antt =====
-- `Array.prototype.sort` is a stable sort. `le a b` stands for `compare(a, b) <= 0`; an insertion
-- from the right that stops at the first record not below keeps equal records in their order.
use newell_ai.Common.Lists.{All, Any, count_if, filter}
use newell_ai.Common.Tests.{if◌then◌else◌, Bool-cases}
use Prim.Native.Nat.{◌+◌}
use mathlib.Core.Bool.{Bool, true, false, ◌&&◌}
use mathlib.Core.List.{List, [], ◌∷◌, map}
use mathlib.Core.Logic.{◌⊎◌, inl, inr}
use mathlib.Core.Path.{◌≡◌, refl, ap, ◌∙◌}
use native.Mathlib.Omega.{arith}

swap_first :
    {A : Type 0} (P : A → Type 0) (x y : A) (ys : List A) {T : Type 0}
    → P x ⊎ Any P (y ∷ ys)
    → (P x ⊎ Any P ys → T)
    → P y ⊎ T
swap_first P x y ys (inl p) k = inr (k (inl p))
swap_first P x y ys (inr (inl q)) k = inl q
swap_first P x y ys (inr (inr r)) k = inr (k (inr r))

-- Every member is related to all behind it.
abbrev pub IsSorted : {A : Type 0} → (A → A → Type 0) → List A → Type 0
IsSorted R [] = Unit
IsSorted R (x ∷ xs) = All (R x) xs × IsSorted R xs

module _ {A : Type 0} (le : A → A → Bool) where
  unfoldable pub insert : A → List A → List A
  insert x [] = x ∷ []
  insert x (y ∷ ys) = let later = insert x ys in if le x y then x ∷ y ∷ ys else y ∷ later

  unfoldable pub sort : List A → List A
  unfolding insert
  sort [] = []
  sort (x ∷ xs) = insert x (sort xs)

  pub insert-All : (P : A → Type 0) (x : A) (xs : List A) → P x → All P xs → All P (insert x xs)
  unfolding insert
  insert-All P x [] p h = (p, tt)
  insert-All P x (y ∷ ys) p (hy, hs) = elim (Bool-cases (le x y)) [
    | inl e ↦ rw e (p, (hy, hs))
    | inr e ↦ rw e (hy, insert-All P x ys p hs)
  ]

  -- What holds of all members holds of all members of the sorted list.
  pub sort-All : (P : A → Type 0) (xs : List A) → All P xs → All P (sort xs)
  unfolding sort
  sort-All P [] h = tt
  sort-All P (x ∷ xs) (p, h) = insert-All P x (sort xs) p (sort-All P xs h)

  insert-All_parts : (P : A → Type 0) (x : A) (xs : List A) → All P (insert x xs) → P x × All P xs
  unfolding insert
  insert-All_parts P x [] h = h
  insert-All_parts P x (y ∷ ys) h = elim (Bool-cases (le x y)) [
    | inl e ↦ rw e at h
    | inr e ↦
        let (py, rest) : P y × All P (insert x ys) = rw e at h in
        let (px, pys) = insert-All_parts P x ys rest in (px, (py, pys))
  ]

  -- What holds of all members of the sorted list holds of all members.
  pub All-sort : (P : A → Type 0) (xs : List A) → All P (sort xs) → All P xs
  unfolding sort
  All-sort P [] h = h
  All-sort P (x ∷ xs) h =
      let (px, rest) = insert-All_parts P x (sort xs) h in (px, All-sort P xs rest)

  insert-count :
      (p : A → Bool) (x : A) (xs : List A)
      → count_if p (insert x xs) ≡ (if p x then 1 else 0) + count_if p xs
  unfolding insert count_if
  insert-count p x [] = refl
  insert-count p x (y ∷ ys) = ground (arith, insert-count p x ys)

  -- Sorting drops and repeats nothing: every test counts the same members before and after.
  pub sort-count : (p : A → Bool) (xs : List A) → count_if p (sort xs) ≡ count_if p xs
  unfolding sort count_if
  sort-count p [] = refl
  sort-count p (x ∷ xs) =
      insert-count p x (sort xs) ∙ ap (λ n. (if p x then 1 else 0) + n) (sort-count p xs)

  insert-Any : (P : A → Type 0) (x : A) (xs : List A) → P x ⊎ Any P xs → Any P (insert x xs)
  unfolding insert
  insert-Any P x [] h = h
  insert-Any P x (y ∷ ys) h = elim (Bool-cases (le x y)) [
    | inl e ↦ rw e h
    | inr e ↦ rw e (swap_first P x y ys h (insert-Any P x ys))
  ]

  -- What a member has, a member of the sorted list has.
  pub sort-Any : (P : A → Type 0) (xs : List A) → Any P xs → Any P (sort xs)
  unfolding sort
  sort-Any P [] h = h
  sort-Any P (x ∷ xs) (inl p) = insert-Any P x (sort xs) (inl p)
  sort-Any P (x ∷ xs) (inr q) = insert-Any P x (sort xs) (inr (sort-Any P xs q))

  -- A relation that the comparison decides up to ties orders the result.
  module _ (R : A → A → Type 0) (below : (a b : A) → le a b ≡ true → R a b)
      (above : (a b : A) → le a b ≡ false → R b a)
      (R_trans : (a b c : A) → R a b → R b c → R a c) where
    All-trans : (x y : A) (ys : List A) → R x y → All (R y) ys → All (R x) ys
    All-trans x y [] h k = tt
    All-trans x y (z ∷ zs) h (k, ks) = (R_trans x y z h k, All-trans x y zs h ks)

    insert-IsSorted : (x : A) (xs : List A) → IsSorted R xs → IsSorted R (insert x xs)
    unfolding insert
    insert-IsSorted x [] h = (tt, tt)
    insert-IsSorted x (y ∷ ys) (hy, hs) = elim (Bool-cases (le x y)) [
      | inl e ↦ rw e ((below x y e, All-trans x y ys (below x y e) hy), (hy, hs))
      | inr e ↦ rw e (insert-All (R y) x ys (above x y e) hy, insert-IsSorted x ys hs)
    ]

    pub sort-IsSorted : (xs : List A) → IsSorted R (sort xs)
    unfolding sort
    sort-IsSorted [] = tt
    sort-IsSorted (x ∷ xs) = insert-IsSorted x (sort xs) (sort-IsSorted xs)

module _ {A B : Type 0} (f : A → B) (Q : A → A → Type 0) (R : B → B → Type 0)
    (h : (a b : A) → Q a b → R (f a) (f b)) where
  map-All : (x : A) (xs : List A) → All (Q x) xs → All (R (f x)) (map f xs)
  map-All x [] k = tt
  map-All x (y ∷ ys) (k, ks) = (h x y k, map-All x ys ks)

  pub map-IsSorted : (xs : List A) → IsSorted Q xs → IsSorted R (map f xs)
  map-IsSorted [] k = tt
  map-IsSorted (x ∷ xs) (k, ks) = (map-All x xs k, map-IsSorted xs ks)

module _ {A : Type 0} (Q R : A → A → Type 0) (h : (a b : A) → Q a b → R a b) where
  all_mono : (x : A) (xs : List A) → All (Q x) xs → All (R x) xs
  all_mono x [] k = tt
  all_mono x (y ∷ ys) (k, ks) = (h x y k, all_mono x ys ks)

  pub IsSorted-mono : (xs : List A) → IsSorted Q xs → IsSorted R xs
  IsSorted-mono [] k = tt
  IsSorted-mono (x ∷ xs) (k, ks) = (all_mono x xs k, IsSorted-mono xs ks)

pub count_if-map :
    {A B : Type 0} (f : A → B) (p : B → Bool) (xs : List A)
    → count_if p (map f xs) ≡ count_if (λ x. p (f x)) xs
unfolding count_if
count_if-map f p [] = refl
count_if-map f p (x ∷ xs) = rw (count_if-map f p xs) refl

pub count_if-filter :
    {A : Type 0} (p q : A → Bool) (xs : List A)
    → count_if p (filter q xs) ≡ count_if (λ x. q x && p x) xs
unfolding count_if filter
count_if-filter p q [] = refl
count_if-filter p q (x ∷ xs) = elim (Bool-cases (q x)) [
  | inl e ↦ rw (e, count_if-filter p q xs) refl
  | inr e ↦ rw (e, count_if-filter p q xs) (omega arith)
]
