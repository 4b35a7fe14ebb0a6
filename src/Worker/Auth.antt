-- ===== src/Worker/Auth.antt =====
-- apps/worker/src/auth.ts and the session table of apps/worker/src/recall/sessionState.ts. SHA-256
-- is a parameter: `digest` for the bytes, `hash` for the hexadecimal text of a session token.
pub mod Laws
pub mod Timing
mod Tests
use newell_ai.Common.{
  ℕ, zero, suc, ◌+◌, ◌*◌, ◌/◌, ◌%◌, Text, codes, text_eq, trim, trim_start, is_space, Option, none,
  some, Bool, true, false, not, ◌&&◌, ◌||◌, List, [], ◌∷◌, ◌++◌, map, any, length, leb, ltb, ◌==◌,
  if◌then◌else◌,
}
use newell_ai.Common.Keys.{text_order}
use newell_ai.Idb.{put, get, delete}
use newell_ai.Queue.Sync.Sanitize.{to_lower}
use newell_ai.Worker.Artifacts.{Outcome, returned, thrown, unauthorized, internal_error}

pub data AuthScope : Type 0 where
  capture_full recall_read : AuthScope

-- `[A-Za-z]`
abbrev pub is_letter : ℕ → Bool
is_letter c = (leb b'A' c && leb c b'Z') || (leb b'a' c && leb c b'z')

-- `.`, which stops at the ends of lines
abbrev pub is_line_end : ℕ → Bool
is_line_end c = c == 10 || c == 13 || c == 0x2028 || c == 0x2029

-- The longest run of letters, and what follows it.
unfoldable pub split_letters : Text → Text × Text
split_letters [] = ([], [])
split_letters (c ∷ s) =
    let later = split_letters s in if is_letter c then (c ∷ later.0, later.1) else ([], c ∷ s)

-- The token behind `\s+(.*)$` and `trimStart`: at least one space, and no end of line behind it.
unfoldable pub token_behind : Text → Option Text
unfolding is_space trim_start
token_behind [] = none
token_behind (c ∷ s) =
    let token = trim_start s in
    if not (is_space c)
    then none
    else if any is_line_end token
    then none
    else if length token == 0
    then none
    else some token

-- `parseBearerToken`
unfoldable pub parse_bearer_token : Text → Option Text
unfolding split_letters token_behind
parse_bearer_token header =
    let trimmed = trim header in
    let (scheme, rest) = split_letters trimmed in
    if any (λ c. c == b',') trimmed
    then none
    else if text_eq (map to_lower scheme) (codes "bearer")
    then token_behind rest
    else none

-- `cookieHeader.split(";")`
unfoldable pub split_at : ℕ → Text → List Text
split_at sep [] = [] ∷ []
split_at sep (c ∷ s) = elim (split_at sep s) [
  | [] ↦ []
  | part ∷ parts ↦ if c == sep then [] ∷ part ∷ parts else (c ∷ part) ∷ parts
]

-- The text before and behind the first `=`, if there is one.
unfoldable pub split_pair : Text → Option (Text × Text)
split_pair [] = none
split_pair (c ∷ s) = elim (split_pair s) [
  | none ↦ if c == b'=' then some ([], s) else none
  | some p ↦ if c == b'=' then some ([], s) else some (c ∷ p.0, p.1)
]

abbrev pub named_value : Text → Option (Text × Text) → Option Text
named_value name none = none
named_value name (some p) =
    if length p.0 == 0 then none else if text_eq (trim p.0) name then some (trim p.1) else none

abbrev pub first_some : Option Text → Option Text → Option Text
first_some none later = later
first_some (some v) later = some v

unfoldable pub find_cookie : Text → List Text → Option Text
unfolding split_pair
find_cookie name [] = none
find_cookie name (part ∷ parts) =
    first_some (named_value name (split_pair (trim part))) (find_cookie name parts)

-- `parseCookieValue`
unfoldable pub parse_cookie_value : Option Text → Text → Option Text
unfolding find_cookie split_at
parse_cookie_value none name = none
parse_cookie_value (some header) name =
    if length header == 0 then none else find_cookie name (split_at b';' header)

-- `a ^ b` and `a | b` of numbers below 2 ^ n
unfoldable pub xor : ℕ → ℕ → ℕ → ℕ
xor zero a b = 0
xor (suc n) a b =
    let rest = xor n (a / 2) (b / 2) in if a % 2 == b % 2 then 2 * rest else 2 * rest + 1

unfoldable pub or : ℕ → ℕ → ℕ → ℕ
or zero a b = 0
or (suc n) a b =
    let rest = or n (a / 2) (b / 2) in if a % 2 == 0 && b % 2 == 0 then 2 * rest else 2 * rest + 1

-- The loop of `timingSafeEqualBytes`; `?? 0` behind the end of the shorter one.
unfoldable pub mismatches : ℕ → List ℕ → List ℕ → ℕ
unfolding xor or
mismatches m [] [] = m
mismatches m (x ∷ a) [] = mismatches (or 8 m (xor 8 x 0)) a []
mismatches m [] (y ∷ b) = mismatches (or 8 m (xor 8 0 y)) [] b
mismatches m (x ∷ a) (y ∷ b) = mismatches (or 8 m (xor 8 x y)) a b

-- `timingSafeEqualBytes`
unfoldable pub timing_safe_equal_bytes : List ℕ → List ℕ → Bool
unfolding mismatches
timing_safe_equal_bytes a b = mismatches (if length a == length b then 0 else 1) a b == 0

abbrev pub recall_session_max_age_sec : ℕ
recall_session_max_age_sec = 12 * 60 * 60

abbrev pub recall_session_cookie : Text
recall_session_cookie = codes "recall_session"

-- An entry of the map `sessions`, under the hash of the token.
pub record SessionRecord : Type 0 where
  pub hash : Text
  pub expires_at_ms : ℕ

abbrev pub session_key : SessionRecord → Text
session_key r = r.hash

-- The headers that are read.
pub record AuthHeaders : Type 0 where
  pub authorization : Option Text
  pub cookie : Option Text

module _ (digest : Text → List ℕ) (hash : Text → Text) where
  -- `createRecallSession` with the random token `raw`
  unfoldable pub create_recall_session : Text → ℕ → List SessionRecord → List SessionRecord
  create_recall_session raw now sessions =
      put session_key
        (record { hash = hash raw; expires_at_ms = now + recall_session_max_age_sec * 1000 })
        sessions

  abbrev pub check_session :
      Text → ℕ → List SessionRecord → Option SessionRecord → Bool × List SessionRecord
  check_session h now sessions none = (false, sessions)
  check_session h now sessions (some r) =
      if leb r.expires_at_ms now then (false, delete session_key h sessions) else (true, sessions)

  -- `recallSessionValid`
  unfoldable pub recall_session_valid : Text → ℕ → List SessionRecord → Bool × List SessionRecord
  recall_session_valid raw now sessions =
      if length raw == 0
      then (false, sessions)
      else check_session (hash raw) now sessions (get session_key (hash raw) sessions)

  -- `revokeRecallSession`
  unfoldable pub revoke_recall_session : Text → List SessionRecord → List SessionRecord
  revoke_recall_session raw sessions =
      if length raw == 0 then sessions else delete session_key (hash raw) sessions

  -- `timingSafeEqualString`
  unfoldable pub timing_safe_equal_string : Text → Text → Bool
  unfolding timing_safe_equal_bytes
  timing_safe_equal_string a b = timing_safe_equal_bytes (digest a) (digest b)

  abbrev pub presented : Option Text → Option Text
  presented none = none
  presented (some header) = parse_bearer_token header

  abbrev pub matches_token : Text → Option Text → Bool
  matches_token token none = false
  matches_token token (some p) = timing_safe_equal_string p token

  -- `bearerIsCaptureToken`
  unfoldable pub bearer_is_capture_token : AuthHeaders → Text → Bool
  unfolding timing_safe_equal_string parse_bearer_token
  bearer_is_capture_token headers token = matches_token token (presented headers.authorization)

  abbrev pub session_valid : Option Text → ℕ → List SessionRecord → Bool × List SessionRecord
  session_valid none now sessions = (false, sessions)
  session_valid (some raw) now sessions = recall_session_valid raw now sessions

  -- `cookieIsRecallSession`
  unfoldable pub cookie_is_recall_session :
      AuthHeaders → ℕ → List SessionRecord → Bool × List SessionRecord
  unfolding recall_session_valid parse_cookie_value
  cookie_is_recall_session headers now sessions =
      session_valid (parse_cookie_value headers.cookie recall_session_cookie) now sessions

  abbrev pub session_scope : Bool × List SessionRecord → Outcome AuthScope × List SessionRecord
  session_scope (ok, sessions) =
      if ok then (returned recall_read, sessions) else (thrown unauthorized, sessions)

  unfoldable pub authorize :
      AuthHeaders
      → Text
      → AuthScope
      → ℕ
      → List SessionRecord
      → Outcome AuthScope × List SessionRecord
  unfolding bearer_is_capture_token cookie_is_recall_session
  authorize headers token capture_full now sessions =
      if bearer_is_capture_token headers token
      then (returned capture_full, sessions)
      else (thrown unauthorized, sessions)
  authorize headers token recall_read now sessions =
      if bearer_is_capture_token headers token
      then (returned capture_full, sessions)
      else session_scope (cookie_is_recall_session headers now sessions)

  -- `requireAuth`
  unfoldable pub require_auth :
      AuthHeaders
      → Option Text
      → AuthScope
      → ℕ
      → List SessionRecord
      → Outcome AuthScope × List SessionRecord
  unfolding authorize
  require_auth headers none required now sessions = (thrown internal_error, sessions)
  require_auth headers (some token) required now sessions =
      if length token == 0
      then (thrown internal_error, sessions)
      else authorize headers token required now sessions
