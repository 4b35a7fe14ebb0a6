-- ===== src/Common/Trimming.antt =====
-- The laws of `trim`.
use Prim.Native.Nat.{ℕ}
use mathlib.Core.Path.{◌≡◌, refl, ap, ◌∙◌}
use mathlib.Core.Logic.{inl, inr}
use mathlib.Core.Bool.{false}
use mathlib.Core.List.{[], ◌∷◌}
use native.Mathlib.Omega.{arith}
use newell_ai.Common.Strings.{Text, is_space, trim_start, trim_end, trim}
use newell_ai.Common.Tests.{Bool-cases}

-- The first unit, if there is one, is not space.
abbrev StartsPlain : Text → Type 0
StartsPlain [] = Unit
StartsPlain (c ∷ s) = is_space c ≡ false

trim_start-StartsPlain : (s : Text) → StartsPlain (trim_start s)
unfolding trim_start
trim_start-StartsPlain [] = tt
trim_start-StartsPlain (c ∷ s) = elim (Bool-cases (is_space c)) [
  | inl e ↦ rw e (trim_start-StartsPlain s)
  | inr e ↦ rw e e
]

trim_start_of_StartsPlain : (s : Text) → StartsPlain s → trim_start s ≡ s
unfolding trim_start
trim_start_of_StartsPlain [] h = refl
trim_start_of_StartsPlain (c ∷ s) h = rw h

trim_end-cons : (c : ℕ) (s : Text) → is_space c ≡ false → trim_end (c ∷ s) ≡ c ∷ trim_end s
unfolding trim_end
trim_end-cons c s h = ground arith

trim_end-StartsPlain : (s : Text) → StartsPlain s → StartsPlain (trim_end s)
trim_end-StartsPlain [] h = unfold trim_end in tt
trim_end-StartsPlain (c ∷ s) h = rw (trim_end-cons c s h) h

trim_end_idempotent : (s : Text) → trim_end (trim_end s) ≡ trim_end s
unfolding trim_end
trim_end_idempotent [] = refl
trim_end_idempotent (c ∷ s) = ground (arith, trim_end_idempotent s)

-- Trimming a second time changes nothing.
pub trim_idempotent : (s : Text) → trim (trim s) ≡ trim s
unfolding trim
trim_idempotent s =
    let plain = trim_end-StartsPlain (trim_start s) (trim_start-StartsPlain s) in
    ap trim_end (trim_start_of_StartsPlain _ plain) ∙ trim_end_idempotent (trim_start s)
