-- ===== src/Worker/Search/Tests.antt =====
-- Runs of the search helpers on small data, and each theorem at a concrete input.
use newell_ai.Common.{Text, codes, map, ◌≡◌, refl}
use newell_ai.Queue.Sync.Sanitize.{to_lower}
use newell_ai.Worker.Search.{like_contains_pattern, make_snippet}

abbrev lower : Text → Text
lower = map to_lower

escapes : like_contains_pattern (codes "100%_done") ≡ codes "%100\\%\\_done%"
unfolding codes like_contains_pattern
escapes = refl

finds : make_snippet lower (codes "say Hello World") (codes "WORLD") 2 ≡ codes "…o World"
unfolding codes make_snippet
finds = refl
