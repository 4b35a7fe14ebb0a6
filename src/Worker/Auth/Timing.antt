-- ===== src/Worker/Auth/Timing.antt =====
-- The comparison of digests.
use newell_ai.Common.{
  ℕ, zero, suc, ◌/◌, ◌^◌, ◌<◌, true, false, List, [], ◌∷◌, length, ◌==◌, ==_iff, ◌≡◌, ◌↔◌, inl, inr,
  refl, arith, All, Bool-cases,
}
use newell_ai.Common.Keys.{text_order}
use newell_ai.Worker.Auth.{xor, or, mismatches, timing_safe_equal_bytes}

xor_iff : (n a b : ℕ) → a < 2 ^ n → b < 2 ^ n → (xor n a b ≡ 0) ↔ (a ≡ b)
unfolding xor
xor_iff zero a b ha hb = (λ e. omega arith, λ e. refl)
xor_iff (suc n) a b ha hb = ground (arith, xor_iff n (a / 2) (b / 2))

or_iff : (n a b : ℕ) → a < 2 ^ n → b < 2 ^ n → (or n a b ≡ 0) ↔ ((a ≡ 0) × (b ≡ 0))
unfolding or
or_iff zero a b ha hb = (λ e. (omega arith, omega arith), λ e. refl)
or_iff (suc n) a b ha hb = ground (arith, or_iff n (a / 2) (b / 2))

xor-lt : (n a b : ℕ) → xor n a b < 2 ^ n
unfolding xor
xor-lt zero a b = omega arith
xor-lt (suc n) a b = ground (arith, xor-lt n (a / 2) (b / 2))

or-lt : (n a b : ℕ) → or n a b < 2 ^ n
unfolding or
or-lt zero a b = omega arith
or-lt (suc n) a b = ground (arith, or-lt n (a / 2) (b / 2))

abbrev pub IsBytes : List ℕ → Type 0
IsBytes bytes = All (λ x. x < 256) bytes

-- A mismatch is not forgotten.
mismatches-zero :
    (m : ℕ) (a b : List ℕ) → m < 256 → IsBytes a → IsBytes b → mismatches m a b ≡ 0 → m ≡ 0
unfolding mismatches
mismatches-zero m [] [] hm ha hb h = h
mismatches-zero m (x ∷ a) [] hm (hx, ha) hb h =
    ((or_iff 8 m (xor 8 x 0) hm (xor-lt 8 x 0)).0
      (mismatches-zero (or 8 m (xor 8 x 0)) a [] (or-lt 8 m (xor 8 x 0)) ha hb h)).0
mismatches-zero m [] (y ∷ b) hm ha (hy, hb) h =
    ((or_iff 8 m (xor 8 0 y) hm (xor-lt 8 0 y)).0
      (mismatches-zero (or 8 m (xor 8 0 y)) [] b (or-lt 8 m (xor 8 0 y)) ha hb h)).0
mismatches-zero m (x ∷ a) (y ∷ b) hm (hx, ha) (hy, hb) h =
    ((or_iff 8 m (xor 8 x y) hm (xor-lt 8 x y)).0
      (mismatches-zero (or 8 m (xor 8 x y)) a b (or-lt 8 m (xor 8 x y)) ha hb h)).0

mismatches-same :
    (m : ℕ) (a b : List ℕ)
    → length a ≡ length b
    → m < 256
    → IsBytes a
    → IsBytes b
    → (mismatches m a b ≡ 0) ↔ ((m ≡ 0) × (a ≡ b))
unfolding mismatches
mismatches-same m [] [] e hm ha hb = ground arith
mismatches-same m (x ∷ a) [] e hm ha hb = ground arith
mismatches-same m [] (y ∷ b) e hm ha hb = ground arith
mismatches-same m (x ∷ a) (y ∷ b) e hm (hx, ha) (hy, hb) = ground (
  arith,
  mismatches-same (or 8 m (xor 8 x y)) a b (omega arith) (or-lt 8 m (xor 8 x y)) ha hb,
  or_iff 8 m (xor 8 x y) hm (xor-lt 8 x y),
  xor_iff 8 x y hx hy,
)

-- The comparison that never stops early accepts exactly equal bytes.
pub timing_safe_equal_bytes_iff :
    (a b : List ℕ) → IsBytes a → IsBytes b → (timing_safe_equal_bytes a b ≡ true) ↔ (a ≡ b)
unfolding timing_safe_equal_bytes
timing_safe_equal_bytes_iff a b ha hb = elim (Bool-cases (length a == length b)) [
  | inl same ↦ rw same (
      let parts = mismatches-same 0 a b ((==_iff _ _).0 same) (omega arith) ha hb in
      (λ h. (parts.0 ((==_iff _ _).0 h)).1, λ e. (==_iff _ _).1 (parts.1 (refl, e))))
  | inr other ↦ rw other (
    λ h. elim (one_is_not_zero (mismatches-zero 1 a b (omega arith) ha hb ((==_iff _ _).0 h))) [ ],
    λ e. elim (differ_lengths a b other e) [ ],
  )
]
  where
    one_is_not_zero : suc zero ≡ zero → ⊥
    one_is_not_zero h = omega arith

    differ_lengths : (a b : List ℕ) → (length a == length b) ≡ false → a ≡ b → ⊥
    differ_lengths a b h e = ground arith
