-- ===== src/Token.antt =====
-- apps/extension/src/token.ts: the check of the capture token before it becomes a header.
pub mod Laws
mod Tests
use newell_ai.Common.{
  ℕ, Text, codes, trim, Bool, true, false, ◌&&◌, List, [], ◌∷◌, leb, if◌then◌else◌,
}

-- The dash of the message is U+2014.
abbrev pub invalid_token_message : Text
invalid_token_message = codes "invalid token characters — re-enter token"

pub data TokenValidation : Type 0 where
  valid : Text → TokenValidation
  invalid : Text → TokenValidation

-- The loop over `charCodeAt`, which stops at the first unit out of range.
unfoldable pub is_printable_ascii : Text → Bool
is_printable_ascii [] = true
is_printable_ascii (c ∷ s) =
    let rest = is_printable_ascii s in if leb 0x20 c && leb c 0x7e then rest else false

abbrev pub is_empty : Text → Bool
is_empty [] = true
is_empty (c ∷ s) = false

-- The checks of `validateCaptureToken` on the trimmed token.
verdict : Text → TokenValidation
verdict token =
    if is_empty token
    then invalid invalid_token_message
    else if is_printable_ascii token
    then valid token
    else invalid invalid_token_message

-- `validateCaptureToken`
unfoldable pub validate_capture_token : Text → TokenValidation
unfolding is_printable_ascii verdict
validate_capture_token raw = verdict (trim raw)
