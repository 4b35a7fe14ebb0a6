-- ===== src/Queue/Backoff.antt =====
-- The delays between attempts.
use newell_ai.Common.{ℕ, zero, suc, refl, ◌+◌, ◌*◌, ◌-◌, ◌^◌, ◌≤◌, min, ◌≡◌, arith}
use native.Mathlib.Nat.{pow-suc}
use newell_ai.Queue.Types.{backoff_ms, retry_base_ms, retry_cap_ms}

pow_pos : (n : ℕ) → 1 ≤ 2 ^ n
pow_pos zero = omega arith
pow_pos (suc n) = rw pow-suc (omega (arith, pow_pos n))

-- The delay lies between five seconds and five minutes.
pub backoff_ms_bounds :
    (attempts : ℕ) → (retry_base_ms ≤ backoff_ms attempts) × (backoff_ms attempts ≤ retry_cap_ms)
unfolding backoff_ms
backoff_ms_bounds attempts = let p = pow_pos (attempts - 1) in (omega arith, omega arith)

-- The first delay is five seconds, and each attempt after the first doubles the delay up to the cap.
pub backoff_ms_doubles :
    (attempts : ℕ)
    → (backoff_ms 1 ≡ retry_base_ms)
      × (backoff_ms (attempts + 2) ≡ min (2 * backoff_ms (attempts + 1)) retry_cap_ms)
unfolding backoff_ms
backoff_ms_doubles attempts =
    let e : 2 ^ suc attempts ≡ 2 ^ attempts * 2 = pow-suc 2 attempts in
    let second : attempts + 2 - 1 ≡ suc attempts = omega arith in
    let first : attempts + 1 - 1 ≡ attempts = omega arith in
    (refl, rw (second, first, e) (omega arith))
