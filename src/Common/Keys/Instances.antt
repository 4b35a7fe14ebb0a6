-- ===== src/Common/Keys/Instances.antt =====
-- Strings and pairs as keys.
use Prim.Native.Nat.{compare, Ordering}
use mathlib.Core.Path.{◌≡◌, refl}
use mathlib.Core.Logic.{◌↔◌}
use mathlib.Core.List.{[], ◌∷◌}
use native.Mathlib.Omega.{arith}
use newell_ai.Common.Strings.{Text}
use newell_ai.Common.Keys.Order.{KeyOrder}

abbrev pub first_difference : Ordering → Ordering → Ordering
first_difference Ordering.lt later = Ordering.lt
first_difference Ordering.eq later = later
first_difference Ordering.gt later = Ordering.gt

unfoldable pub text_cmp : Text → Text → Ordering
text_cmp [] [] = Ordering.eq
text_cmp [] (y ∷ ys) = Ordering.lt
text_cmp (x ∷ xs) [] = Ordering.gt
text_cmp (x ∷ xs) (y ∷ ys) = first_difference (compare x y) (text_cmp xs ys)

pub text_cmp_eq : (a b : Text) → (text_cmp a b ≡ Ordering.eq) ↔ (a ≡ b)
unfolding text_cmp
text_cmp_eq [] [] = ground arith
text_cmp_eq [] (y ∷ ys) = ground arith
text_cmp_eq (x ∷ xs) [] = ground arith
text_cmp_eq (x ∷ xs) (y ∷ ys) = ground (arith, text_cmp_eq xs ys)

pub text_cmp_flip : (a b : Text) → (text_cmp a b ≡ Ordering.lt) ↔ (text_cmp b a ≡ Ordering.gt)
unfolding text_cmp
text_cmp_flip [] [] = ground arith
text_cmp_flip [] (y ∷ ys) = ground arith
text_cmp_flip (x ∷ xs) [] = ground arith
text_cmp_flip (x ∷ xs) (y ∷ ys) = ground (arith, text_cmp_flip xs ys)

pub text_cmp_trans :
    (a b c : Text)
    → text_cmp a b ≡ Ordering.lt
    → text_cmp b c ≡ Ordering.lt
    → text_cmp a c ≡ Ordering.lt
unfolding text_cmp
text_cmp_trans [] [] c h k = cc
text_cmp_trans [] (y ∷ ys) [] h k = cc
text_cmp_trans [] (y ∷ ys) (z ∷ zs) h k = refl
text_cmp_trans (x ∷ xs) [] c h k = cc
text_cmp_trans (x ∷ xs) (y ∷ ys) [] h k = cc
text_cmp_trans (x ∷ xs) (y ∷ ys) (z ∷ zs) h k = ground (arith, text_cmp_trans xs ys zs)

instance abbrev pub text_order : KeyOrder Text
text_order = record {
  cmp = text_cmp;
  cmp_eq = text_cmp_eq;
  cmp_flip = text_cmp_flip;
  cmp_trans = text_cmp_trans;
}

module _ {K L : Type 0} ⦃o : KeyOrder K⦄ ⦃p : KeyOrder L⦄ where
  unfoldable pub pair_cmp : K × L → K × L → Ordering
  pair_cmp a b = first_difference (o.cmp a.0 b.0) (p.cmp a.1 b.1)

  pub pair_cmp_eq : (a b : K × L) → (pair_cmp a b ≡ Ordering.eq) ↔ (a ≡ b)
  unfolding pair_cmp
  pair_cmp_eq (a, a') (b, b') = ground (arith, o.cmp_eq a b, p.cmp_eq a' b')

  pub pair_cmp_flip : (a b : K × L) → (pair_cmp a b ≡ Ordering.lt) ↔ (pair_cmp b a ≡ Ordering.gt)
  unfolding pair_cmp
  pair_cmp_flip (a, a') (b, b') =
      ground (arith, o.cmp_eq a b, o.cmp_eq b a, o.cmp_flip a b, o.cmp_flip b a, p.cmp_flip a' b')

  pub pair_cmp_trans :
      (a b c : K × L)
      → pair_cmp a b ≡ Ordering.lt
      → pair_cmp b c ≡ Ordering.lt
      → pair_cmp a c ≡ Ordering.lt
  unfolding pair_cmp
  pair_cmp_trans (a, a') (b, b') (c, c') h k =
      ground
        (arith, o.cmp_eq a b, o.cmp_eq b c, o.cmp_eq a c, o.cmp_trans a b c, p.cmp_trans a' b' c')

  instance abbrev pub pair_order : KeyOrder (K × L)
  pair_order = record {
    cmp = pair_cmp;
    cmp_eq = pair_cmp_eq;
    cmp_flip = pair_cmp_flip;
    cmp_trans = pair_cmp_trans;
  }
