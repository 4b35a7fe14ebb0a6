-- ===== src/Worker/Search.antt =====
-- apps/worker/src/search/like.ts and snippet.ts. `toLowerCase` of the language's Unicode tables is
-- the parameter `lower`.
pub mod Laws
mod Tests
use newell_ai.Common.{
  ℕ, zero, suc, ◌+◌, ◌-◌, ◌*◌, min, Text, codes, Option, none, some, Bool, true, false, List, [],
  ◌∷◌, ◌++◌, take, drop, length, ltb, ◌==◌, if◌then◌else◌,
}

-- `.replace(/c/g, by)` for a single code unit
unfoldable pub replace_unit : ℕ → Text → Text → Text
replace_unit c by [] = []
replace_unit c by (d ∷ s) =
    let rest = replace_unit c by s in if d == c then by ++ rest else d ∷ rest

abbrev pub percent : ℕ
percent = 0x25

abbrev pub underscore : ℕ
underscore = 0x5f

-- `LIKE_ESCAPE`
abbrev pub like_escape : ℕ
like_escape = 0x5c

abbrev pub escaped : ℕ → Text
escaped c = like_escape ∷ c ∷ []

-- `escapeLikeLiteral`
unfoldable pub escape_like_literal : Text → Text
unfolding replace_unit
escape_like_literal raw =
    replace_unit underscore (escaped underscore)
      (replace_unit percent (escaped percent) (replace_unit like_escape (escaped like_escape) raw))

-- `likeContainsPattern`
unfoldable pub like_contains_pattern : Text → Text
unfolding escape_like_literal
like_contains_pattern query = percent ∷ escape_like_literal query ++ percent ∷ []

abbrev pub snippet_radius : ℕ
snippet_radius = 80

abbrev pub snippet_max_chars : ℕ
snippet_max_chars = snippet_radius * 2 + 64

unfoldable pub is_prefix : Text → Text → Bool
is_prefix [] s = true
is_prefix (p ∷ ps) [] = false
is_prefix (p ∷ ps) (c ∷ s) = let later = is_prefix ps s in if p == c then later else false

-- `s.indexOf(query)` from the place `n`
unfoldable pub index_of : ℕ → Text → Text → Option ℕ
unfolding is_prefix
index_of n query [] = if is_prefix query [] then some n else none
index_of n query (c ∷ s) =
    let later = index_of (suc n) query s in if is_prefix query (c ∷ s) then some n else later

-- `text.slice(start, end)`
abbrev pub slice : ℕ → ℕ → Text → Text
slice start end text = drop start (take end text)

abbrev pub cut_off : Text → Text
cut_off s = if ltb snippet_max_chars (length s) then take snippet_max_chars s ++ codes "…" else s

-- The window around a match at `idx`, with an ellipsis where text is left out.
unfoldable pub window : Text → ℕ → ℕ → ℕ → Text
window text idx query_length radius =
    let start = idx - radius in
    let end = min (length text) (idx + query_length + radius) in
    let snippet = slice start end text in
    let marked = if ltb 0 start then codes "…" ++ snippet else snippet in
    if ltb end (length text) then marked ++ codes "…" else marked

abbrev pub around : Text → Option ℕ → ℕ → ℕ → Text
around text none query_length radius =
    let cut = take (min (length text) snippet_max_chars) text in
    if ltb snippet_max_chars (length text) then cut ++ codes "…" else cut
around text (some idx) query_length radius = cut_off (window text idx query_length radius)

module _ (lower : Text → Text) where
  -- `makeSnippet`
  unfoldable pub make_snippet : Text → Text → ℕ → Text
  unfolding index_of window
  make_snippet text query radius =
      if length text == 0
      then []
      else around text (index_of 0 (lower query) (lower text)) (length query) radius
