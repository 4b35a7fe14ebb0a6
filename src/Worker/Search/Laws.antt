-- ===== src/Worker/Search/Laws.antt =====
-- Escaping is undone by reading a pattern, and snippets are bounded.
use newell_ai.Common.{
  ℕ, ◌+◌, ◌≤◌, min, Text, codes, Option, none, some, Bool, true, false, [], ◌∷◌, ◌++◌, take, length,
  length-take-le, ltb, ◌==◌, ◌≡◌, refl, ap, ◌∙◌, arith, Bool-cases, inl, inr, if◌then◌else◌,
}
use newell_ai.Worker.Search.{
  replace_unit, percent, underscore, like_escape, escaped, escape_like_literal, snippet_max_chars,
  cut_off, window, around, index_of, make_snippet,
}

abbrev pub prepend : ℕ → Option Text → Option Text
prepend c none = none
prepend c (some s) = some (c ∷ s)

-- The text that a pattern spells if it has no wildcard; a unit behind the escape character stands
-- for itself.
abbrev pub literal_of : Text → Option Text
literal_of [] = some []
literal_of (c ∷ []) =
    if c == like_escape
    then none
    else if c == percent
    then none
    else if c == underscore
    then none
    else some (c ∷ [])
literal_of (c ∷ d ∷ s) =
    let behind = literal_of s in
    let next = literal_of (d ∷ s) in
    if c == like_escape
    then prepend d behind
    else if c == percent
    then none
    else if c == underscore
    then none
    else prepend c next

-- The escape of one code unit.
abbrev unit_escape : ℕ → Text
unit_escape c =
    if c == like_escape
    then escaped c
    else if c == percent
    then escaped c
    else if c == underscore
    then escaped c
    else c ∷ []

escape_like_literal-cons :
    (c : ℕ) (s : Text) → escape_like_literal (c ∷ s) ≡ unit_escape c ++ escape_like_literal s
unfolding escape_like_literal replace_unit
escape_like_literal-cons c s = ground arith

literal_of-unit :
    (c : ℕ) (t s : Text) → literal_of t ≡ some s → literal_of (unit_escape c ++ t) ≡ some (c ∷ s)
literal_of-unit c [] s h = ground arith
literal_of-unit c (d ∷ t) s h = ground (arith, h)

-- Read as a pattern, the escaped text has no wildcard and spells the text.
pub literal_of-escape_like_literal : (s : Text) → literal_of (escape_like_literal s) ≡ some s
literal_of-escape_like_literal [] = unfold escape_like_literal replace_unit in refl
literal_of-escape_like_literal (c ∷ s) =
    ap literal_of (escape_like_literal-cons c s)
    ∙ literal_of-unit c (escape_like_literal s) s (literal_of-escape_like_literal s)

length-append : (a b : Text) → length (a ++ b) ≡ length a + length b
length-append [] b = omega arith
length-append (x ∷ a) b = omega (arith, length-append a b)

marked_length : (n : ℕ) (s : Text) → length (take n s ++ codes "…") ≤ n + 1
unfolding codes
marked_length n s = omega (arith, length-append (take n s) (0x2026 ∷ []), length-take-le n s)

choice-length :
    (b : Bool) (x y : Text) (n : ℕ)
    → length x ≤ n
    → (b ≡ false → length y ≤ n)
    → length (if b then x else y) ≤ n
choice-length true x y n h k = h
choice-length false x y n h k = k refl

cut_off-length : (s : Text) → length (cut_off s) ≤ snippet_max_chars + 1
cut_off-length s =
    choice-length (ltb snippet_max_chars (length s)) (take snippet_max_chars s ++ codes "…") s
      (snippet_max_chars + 1) (marked_length snippet_max_chars s) (λ e. ground (arith, e))

cut-length :
    (text : Text) → length (take (min (length text) snippet_max_chars) text) ≤ snippet_max_chars
cut-length text = omega (arith, length-take-le (min (length text) snippet_max_chars) text)

around-bounded :
    (text : Text) (o : Option ℕ) (query_length radius : ℕ)
    → length (around text o query_length radius) ≤ snippet_max_chars + 1
around-bounded text (some idx) query_length radius =
    cut_off-length (window text idx query_length radius)
around-bounded text none query_length radius =
    let cut = take (min (length text) snippet_max_chars) text in
    choice-length (ltb snippet_max_chars (length text)) (cut ++ codes "…") cut
      (snippet_max_chars + 1) (marked_cut text) (λ e. omega (arith, cut-length text))
  where
    marked_cut :
        (text : Text)
        → length (take (min (length text) snippet_max_chars) text ++ codes "…")
          ≤ snippet_max_chars + 1
    marked_cut text = omega (arith, marked_length (min (length text) snippet_max_chars) text)

-- A snippet has at most one code unit more than the maximum, whatever the text, the query and the
-- radius are, and whatever lower case is.
pub make_snippet-bounded :
    (lower : Text → Text) (text query : Text) (radius : ℕ)
    → length (make_snippet lower text query radius) ≤ snippet_max_chars + 1
unfolding make_snippet
make_snippet-bounded lower text query radius = elim (Bool-cases (length text == 0)) [
  | inl empty ↦ rw empty (omega arith)
  | inr filled ↦
      rw filled (around-bounded text (index_of 0 (lower query) (lower text)) (length query) radius)
]
