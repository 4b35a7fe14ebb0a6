-- ===== src/Common/Keys/Order.antt =====
-- The interface, and the Boolean equality that it gives.
use Prim.Native.Nat.{Ordering}
use mathlib.Core.Path.{◌≡◌}
use mathlib.Core.Logic.{◌↔◌}
use mathlib.Core.Bool.{Bool, true, false}
use native.Mathlib.Omega.{arith}

pub record KeyOrder (K : Type 0) : Type 0 where
  pub cmp : K → K → Ordering
  pub cmp_eq : (a b : K) → (cmp a b ≡ Ordering.eq) ↔ (a ≡ b)
  pub cmp_flip : (a b : K) → (cmp a b ≡ Ordering.lt) ↔ (cmp b a ≡ Ordering.gt)
  pub cmp_trans :
      (a b c : K) → cmp a b ≡ Ordering.lt → cmp b c ≡ Ordering.lt → cmp a c ≡ Ordering.lt

abbrev pub is_eq : Ordering → Bool
is_eq Ordering.eq = true
is_eq Ordering.lt = false
is_eq Ordering.gt = false

module _ {K : Type 0} ⦃o : KeyOrder K⦄ where
  abbrev pub same_key : K → K → Bool
  same_key a b = is_eq (o.cmp a b)

  pub same_key_iff : (a b : K) → (same_key a b ≡ true) ↔ (a ≡ b)
  same_key_iff a b = ground (arith, o.cmp_eq a b)

  pub cmp_refl : (a : K) → o.cmp a a ≡ Ordering.eq
  cmp_refl a = ground (arith, o.cmp_eq a a)

  pub same_key_sym : (a b : K) → same_key a b ≡ false → same_key b a ≡ false
  same_key_sym a b h = ground (arith, o.cmp_eq a b, o.cmp_eq b a)
