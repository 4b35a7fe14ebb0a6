-- ===== src/Worker/Reads/Found.antt =====
-- What `searchTurns` of apps/worker/src/db/search.ts finds, and in which order.
use newell_ai.Common.{
  ℕ, Text, Bool, true, ◌&&◌, List, map, filter, take, ◌≡◌, refl, arith, count_if, ◌∙◌, Ordering,
}
use newell_ai.Common.Comparing.{
  not_after, flipped, text_cmp-IsComparison, descending-IsComparison, then_by-IsComparison,
  on-IsComparison, sort-IsOrdered, IsComparison,
}
use newell_ai.Common.Keys.{text_order, text_cmp, text_cmp_eq, first_difference}
use newell_ai.Common.Sorting.{IsSorted, sort, sort-count, IsSorted-mono, count_if-filter}
use newell_ai.Worker.Db.{TurnRow, WorkerDb}
use newell_ai.Worker.Reads.{hit_order, found_turns, search_turns, hit_of, has_conversation}
use newell_ai.Worker.Search.{like_contains_pattern}

hit_order-IsComparison : IsComparison hit_order
unfolding hit_order
hit_order-IsComparison =
    then_by-IsComparison _ _
      (on-IsComparison (λ (a : TurnRow). a.created_at) _
        (descending-IsComparison _ text_cmp-IsComparison))
      (on-IsComparison (λ (a : TurnRow). a.turn_id) _ text_cmp-IsComparison)

-- The first is not older than the second, and of two created at once it has the smaller id.
abbrev pub IsNewer : TurnRow → TurnRow → Type 0
IsNewer a b =
    (not_after (text_cmp b.created_at a.created_at) ≡ true)
    × (a.created_at ≡ b.created_at → not_after (text_cmp a.turn_id b.turn_id) ≡ true)

-- The rows of the turns of stored conversations whose text the pattern of the query matches, each
-- as often as it is stored, the newest first and of those created at once the smaller id first.
abbrev pub IsFound : (Text → Text → Bool) → WorkerDb → Text → List TurnRow → Type 0
IsFound like db query ts =
    IsSorted IsNewer ts
    × ((p : TurnRow → Bool)
        → count_if p ts
          ≡ count_if
              (λ (t : TurnRow).
                (has_conversation db t && like t.text (like_contains_pattern query)) && p t)
              db.turns)

hit-newest : (a b : TurnRow) → not_after (hit_order a b) ≡ true → IsNewer a b
unfolding hit_order
hit-newest a b h = from (text_cmp a.created_at b.created_at) refl h
  where
    back : text_cmp b.created_at a.created_at ≡ flipped (text_cmp a.created_at b.created_at)
    back = text_cmp-IsComparison.flip a.created_at b.created_at

    from :
        (o : Ordering)
        → text_cmp a.created_at b.created_at ≡ o
        → not_after (first_difference (flipped o) (text_cmp a.turn_id b.turn_id)) ≡ true
        → IsNewer a b
    from Ordering.lt e k = ground arith
    from Ordering.eq e k = (rw (back, e) refl, λ same. k)
    from Ordering.gt e k = (
      rw (back, e) refl,
      λ same. let bad = (text_cmp_eq a.created_at b.created_at).1 same in ground (arith, e, bad),
    )

-- The hits of a search are made of the first rows, up to the limit, of all that there are to find,
-- the newest first.
pub search_turns-IsFound :
    (like : Text → Text → Bool) (lower : Text → Text) (db : WorkerDb) (query : Text) (limit : ℕ)
    → (all : List TurnRow) × (search_turns like lower db query limit
        ≡ map (hit_of like lower db query) (take limit all))
      × IsFound like db query all
unfolding search_turns found_turns
search_turns-IsFound like lower db query limit =
    let found : TurnRow → Bool =
      λ t. has_conversation db t && like t.text (like_contains_pattern query) in
    let rows : List TurnRow = filter found db.turns in
    let le : TurnRow → TurnRow → Bool = λ a b. not_after (hit_order a b) in
    (
      _,
      refl,
      (
        IsSorted-mono (λ a b. le a b ≡ true) IsNewer hit-newest (sort le rows)
            (sort-IsOrdered hit_order hit_order-IsComparison rows),
        λ p. sort-count le p rows ∙ count_if-filter p found db.turns,
      ),
    )
