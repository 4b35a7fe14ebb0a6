-- ===== src/Token/Tests.antt =====
-- The theorems on tokens at concrete inputs.
use newell_ai.Common.{codes, trim, ◌≡◌, refl}
use newell_ai.Token.{valid, validate_capture_token}

accepted_token : validate_capture_token (codes " a b ") ≡ valid (codes "a b")
unfolding validate_capture_token trim codes
accepted_token = refl
