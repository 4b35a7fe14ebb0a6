-- ===== src/Token/Laws.antt =====
-- Which tokens are accepted.
use newell_ai.Common.{◌≤◌, Text, trim, true, [], ◌∷◌, ◌≡◌, ◌≢◌, ◌↔◌, sym, ◌∙◌, ap, arith, All}
use newell_ai.Common.Trimming.{trim_idempotent}
use newell_ai.Token.{valid, is_printable_ascii, verdict, validate_capture_token}

-- Printable ASCII, as a range of code units.
abbrev pub IsPrintable : Text → Type 0
IsPrintable s = All (λ c. (0x20 ≤ c) × (c ≤ 0x7e)) s

is_printable_ascii_iff : (s : Text) → (is_printable_ascii s ≡ true) ↔ IsPrintable s
unfolding is_printable_ascii
is_printable_ascii_iff [] = ground arith
is_printable_ascii_iff (c ∷ s) = ground (arith, is_printable_ascii_iff s)

verdict_iff :
    (t token : Text) → (verdict t ≡ valid token) ↔ ((token ≡ t) × (token ≢ []) × IsPrintable token)
unfolding verdict
verdict_iff [] token = ground arith
verdict_iff (c ∷ t) token = (
  λ h.
      let same : token ≡ c ∷ t = ground arith in
      (same, rw same (λ e. cc), rw same ((is_printable_ascii_iff (c ∷ t)).0 (ground arith))),
  λ (same, _, plain).
      let printable = (is_printable_ascii_iff (c ∷ t)).1 (rw same at plain) in rw (same, printable),
)

-- A token is accepted exactly when it is the trimmed input, not empty, and printable ASCII in
-- every position; nothing inside it is altered.
pub validate_capture_token_iff :
    (raw token : Text)
    → (validate_capture_token raw ≡ valid token)
      ↔ ((token ≡ trim raw) × (token ≢ []) × IsPrintable token)
unfolding validate_capture_token
validate_capture_token_iff raw token = verdict_iff (trim raw) token

-- Validating an accepted token once more accepts it unchanged.
pub validate_capture_token_again :
    (raw token : Text)
    → validate_capture_token raw ≡ valid token
    → validate_capture_token token ≡ valid token
validate_capture_token_again raw token h =
    let (same, filled, plain) = (validate_capture_token_iff raw token).0 h in
    (validate_capture_token_iff token token).1
      (same ∙ sym (trim_idempotent raw) ∙ ap trim (sym same), filled, plain)
