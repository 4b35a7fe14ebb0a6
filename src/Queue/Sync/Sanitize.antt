-- ===== src/Queue/Sync/Sanitize.antt =====
-- `sanitizeFetchError` of apps/extension/src/queue/sync.ts. Its two patterns are matchers over
-- code units; a scan has one unit of fuel for each code unit of the text, since every round drops
-- one at least.
use newell_ai.Common.{
  ◌>>=◌, ℕ, zero, suc, ◌+◌, Text, codes, trim, is_space, Option, none, some, Bool, true, false, not,
  ◌&&◌, ◌||◌, [], ◌∷◌, ◌++◌, map, take, drop, length, leb, ◌==◌, if◌then◌else◌,
}
use newell_ai.Queue.Enqueue.{is_control}

-- What `fetchFn` threw: an `Error`, or any other value.
pub data Thrown : Type 0 where
  error : (name message : Text) → Thrown
  other : Thrown

abbrev pub to_lower : ℕ → ℕ
to_lower c = if leb b'A' c && leb c b'Z' then c + 32 else c

-- The text behind a prefix that is matched without regard to case.
unfoldable pub after_prefix : Text → Text → Option Text
after_prefix [] s = some s
after_prefix (p ∷ ps) [] = none
after_prefix (p ∷ ps) (c ∷ s) = if to_lower c == p then after_prefix ps s else none

-- Drops the longest run of units that pass the test, which `true` says to be there.
unfoldable pub after_run : (ℕ → Bool) → Bool → Text → Option Text
after_run p seen [] = if seen then some [] else none
after_run p seen (c ∷ s) =
    let later = after_run p true s in if p c then later else if seen then some (c ∷ s) else none

-- `/Bearer\s+\S+/i` at the head of the text: what follows the match
unfoldable pub after_bearer : Text → Option Text
unfolding after_prefix after_run is_space
after_bearer s = do
  a ← after_prefix (codes "bearer") s
  b ← after_run is_space false a
  after_run (λ c. not (is_space c)) false b

-- `.replace(/Bearer\s+\S+/gi, "Bearer [redacted]")`
unfoldable pub redact_bearer : ℕ → Text → Text
unfolding after_bearer
redact_bearer zero s = s
redact_bearer (suc fuel) [] = []
redact_bearer (suc fuel) (c ∷ s) = elim (after_bearer (c ∷ s)) [
  | none ↦ c ∷ redact_bearer fuel s
  | some rest ↦ codes "Bearer [redacted]" ++ redact_bearer fuel rest
]

-- `\w`
abbrev pub is_word : ℕ → Bool
is_word c =
    (leb b'A' c && leb c b'Z')
    || (leb b'a' c && leb c b'z')
    || (leb b'0' c && leb c b'9')
    || c == b'_'

-- `[A-Za-z0-9+/=_-]`
abbrev pub is_opaque : ℕ → Bool
is_opaque c = is_word c || c == b'+' || c == b'/' || c == b'=' || c == b'-'

abbrev pub differs : Bool → Bool → Bool
differs true b = not b
differs false b = b

-- `\b` between a unit that is a word unit or not and the text behind it
abbrev pub is_boundary : Bool → Text → Bool
is_boundary before [] = before
is_boundary before (c ∷ s) = differs before (is_word c)

abbrev pub or_here : Option ℕ → Bool → ℕ → Option ℕ
or_here (some n) ok here = some n
or_here none true here = some here
or_here none false here = none

-- The longest match of `[A-Za-z0-9+/=_-]{32,}\b` of which `n` units are passed.
unfoldable pub opaque_end : ℕ → Bool → Text → Option ℕ
opaque_end n before [] = or_here none (leb 32 n && before) n
opaque_end n before (c ∷ s) =
    let longer = opaque_end (suc n) (is_word c) s in
    or_here (if is_opaque c then longer else none) (leb 32 n && is_boundary before (c ∷ s)) n

abbrev pub opaque_match : Bool → Text → Option ℕ
opaque_match before s = if is_boundary before s then opaque_end 0 before s else none

-- Whether the unit before the text that is left is a word unit.
abbrev pub last_is_word : Bool → Text → Bool
last_is_word before [] = before
last_is_word before (c ∷ s) = last_is_word (is_word c) s

-- `.replace(/\b[A-Za-z0-9+/=_-]{32,}\b/g, "[redacted]")`
unfoldable pub redact_opaque : ℕ → Bool → Text → Text
unfolding opaque_end
redact_opaque zero before s = s
redact_opaque (suc fuel) before [] = []
redact_opaque (suc fuel) before (c ∷ s) = elim (opaque_match before (c ∷ s)) [
  | none ↦ c ∷ redact_opaque fuel (is_word c) s
  | some n ↦
      codes "[redacted]"
      ++ redact_opaque fuel (last_is_word before (take n (c ∷ s))) (drop n (c ∷ s))
]

-- `.replace(/[\u0000-\u001f\u007f]/g, " ")` at one unit
abbrev pub blank : ℕ → ℕ
blank c = if is_control c then 0x20 else c

unfoldable pub safe_message : Text → Text
unfolding redact_bearer redact_opaque
safe_message raw =
    let bearer = redact_bearer (length raw) raw in
    take 120 (trim (map blank (redact_opaque (length bearer) false bearer)))

abbrev pub or_text : Text → Text → Text
or_text [] d = d
or_text (c ∷ s) d = c ∷ s

abbrev pub report : Text → Text → Text
report name safe =
    codes "network error (" ++ name ++ codes ": " ++ or_text safe (codes "unknown") ++ codes ")"

-- `sanitizeFetchError`
unfoldable pub sanitize_fetch_error : Thrown → Text
unfolding safe_message
sanitize_fetch_error (error name message) =
    report (or_text name (codes "Error")) (safe_message message)
sanitize_fetch_error other = report (codes "Error") (safe_message (codes "unknown"))
