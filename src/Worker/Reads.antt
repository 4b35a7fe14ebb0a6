-- ===== src/Worker/Reads.antt =====
-- apps/worker/src/db/reads.ts, db/search.ts and db/status.ts: the list, search and status queries,
-- over the tables. Strings are compared by code units. `LIKE … ESCAPE` of the database is the
-- parameter `like` of the search, and the storage of objects is `head` of the status.
pub mod Laws
pub mod Found
pub mod Status
mod Tests
use newell_ai.Common.{
  ℕ, zero, suc, ◌+◌, ◌*◌, ◌-◌, min, Text, codes, text_eq, trim, trim_start, Option, none, some,
  Bool, true, false, not, ◌&&◌, ◌||◌, List, [], ◌∷◌, map, filter, take, length, ltb, leb, ◌==◌,
  if◌then◌else◌, Ordering,
}
use newell_ai.Common.Comparing.{not_after, nulls_last, descending, cmp_ℤ, then_by}
use newell_ai.Common.Keys.{text_order, text_cmp}
use newell_ai.Common.Int.{ℤ}
use newell_ai.Common.Sorting.{sort}
use newell_ai.Idb.{get}
use newell_ai.Contracts.{ConversationSummary, TurnRecord, SearchHit}
use newell_ai.Worker.Db.{ConversationRow, TurnRow, WorkerDb, conversation_key}
use newell_ai.Worker.Artifacts.{Outcome, returned, thrown, not_found, validation_error}
use newell_ai.Worker.Search.{like_contains_pattern, make_snippet, snippet_radius}

abbrev pub last_of : Option Text → Option Text → Option Text
last_of none later = later
last_of (some a) none = some a
last_of (some a) (some b) = elim (text_cmp a b) [
  | Ordering.lt ↦ some b
  | Ordering.eq ↦ some a
  | Ordering.gt ↦ some a
]

-- `MAX(x)` over the rows
unfoldable pub max_of : List Text → Option Text
max_of [] = none
max_of (x ∷ xs) = last_of (some x) (max_of xs)

abbrev pub turn_created_at : TurnRow → Text
turn_created_at t = t.created_at

abbrev pub of_conversation : Text → TurnRow → Bool
of_conversation id t = text_eq t.conversation_id id

-- A row of the grouped LEFT JOIN.
unfoldable pub summary_of : List TurnRow → ConversationRow → ConversationSummary
unfolding max_of filter
summary_of turns c =
    let own = filter (of_conversation c.conversation_id) turns in
    record {
      conversation_id = c.conversation_id;
      user_id = c.user_id;
      title = c.title;
      source_model = c.source_model;
      started_at = c.started_at;
      created_at = c.created_at;
      last_turn_at = max_of (map turn_created_at own);
      turn_count = length own;
    }

-- `ORDER BY (last_turn_at IS NULL) ASC, last_turn_at DESC, c.conversation_id ASC`
unfoldable pub summary_order : ConversationSummary → ConversationSummary → Ordering
unfolding text_cmp
summary_order =
    then_by
      (λ (a b : ConversationSummary).
        nulls_last (descending text_cmp) a.last_turn_at b.last_turn_at)
      (λ (a b : ConversationSummary). text_cmp a.conversation_id b.conversation_id)

-- `listConversations`
unfoldable pub list_conversations : WorkerDb → List ConversationSummary
unfolding summary_of summary_order sort
list_conversations db =
    sort (λ a b. not_after (summary_order a b)) (map (summary_of db.turns) db.conversations)

unfoldable pub turn_record : TurnRow → TurnRecord
turn_record r = record {
  turn_id = r.turn_id;
  conversation_id = r.conversation_id;
  client_turn_id = r.client_turn_id;
  speaker = r.speaker;
  text = r.text;
  captured_at = r.captured_at;
  sequence = r.sequence;
  parent_client_turn_id = r.parent_client_turn_id;
  message_type = r.message_type;
  topic = r.topic;
  capture_client = r.capture_client;
  capture_client_version = r.capture_client_version;
  surface = r.surface;
  captured_batch_id = r.captured_batch_id;
  created_at = r.created_at;
}

-- `ORDER BY (sequence IS NULL) ASC, sequence ASC, created_at ASC, turn_id ASC`
unfoldable pub turn_read_order : TurnRow → TurnRow → Ordering
unfolding text_cmp
turn_read_order =
    then_by (λ (a b : TurnRow). nulls_last cmp_ℤ a.sequence b.sequence)
      (then_by (λ (a b : TurnRow). text_cmp a.created_at b.created_at)
        (λ (a b : TurnRow). text_cmp a.turn_id b.turn_id))

-- `listConversationTurns`
unfoldable pub list_conversation_turns : WorkerDb → Text → Outcome (List TurnRecord)
unfolding turn_record turn_read_order sort filter
list_conversation_turns db id = elim (get conversation_key id db.conversations) [
  | none ↦ thrown not_found
  | some c ↦ returned (
      map turn_record
        (sort (λ a b. not_after (turn_read_order a b)) (filter (of_conversation id) db.turns)))
]

abbrev pub search_query_min : ℕ
search_query_min = 2

abbrev pub search_query_max : ℕ
search_query_max = 200

abbrev pub search_limit_default : ℕ
search_limit_default = 25

abbrev pub search_limit_max : ℕ
search_limit_max = 50

-- `validateSearchQuery`
unfoldable pub validate_search_query : Option Text → Outcome Text
validate_search_query none = thrown validation_error
validate_search_query (some raw) =
    if ltb (length (trim raw)) search_query_min
    then thrown validation_error
    else if ltb search_query_max (length (trim raw))
    then thrown validation_error
    else returned (trim raw)

-- The value of the digits at the head of the text; `seen` says that there was one before.
unfoldable pub digits_value : Bool → ℕ → Text → Option ℕ
digits_value seen n [] = if seen then some n else none
digits_value seen n (c ∷ s) =
    let rest = digits_value true (10 * n + (c - b'0')) s in
    if leb b'0' c && leb c b'9' then rest else if seen then some n else none

-- `Number.parseInt(raw, 10)` where it is a positive number; else it is NaN or below 1. Numbers too
-- large for a double are left out.
abbrev pub signed_value : Text → Option ℕ
signed_value [] = none
signed_value (c ∷ s) = if c == b'+' then digits_value false 0 s else digits_value false 0 (c ∷ s)

unfoldable pub parse_int : Text → Option ℕ
unfolding digits_value trim_start
parse_int raw = signed_value (trim_start raw)

abbrev pub positive_limit : Option ℕ → Outcome ℕ
positive_limit none = thrown validation_error
positive_limit (some n) =
    if ltb n 1 then thrown validation_error else returned (min n search_limit_max)

-- `parseSearchLimit`
unfoldable pub parse_search_limit : Option Text → Outcome ℕ
unfolding parse_int
parse_search_limit none = returned search_limit_default
parse_search_limit (some raw) =
    if length (trim raw) == 0 then returned search_limit_default else positive_limit (parse_int raw)

-- `ORDER BY t.created_at DESC, t.turn_id ASC`
unfoldable pub hit_order : TurnRow → TurnRow → Ordering
unfolding text_cmp
hit_order =
    then_by (λ (a b : TurnRow). descending text_cmp a.created_at b.created_at)
      (λ (a b : TurnRow). text_cmp a.turn_id b.turn_id)

abbrev pub has_conversation : WorkerDb → TurnRow → Bool
has_conversation db t = elim (get conversation_key t.conversation_id db.conversations) [
  | none ↦ false
  | some c ↦ true
]

abbrev pub title_of : Option ConversationRow → Option Text
title_of none = none
title_of (some c) = c.title

module _ (like : Text → Text → Bool) (lower : Text → Text) where
  unfoldable pub hit_of : WorkerDb → Text → TurnRow → SearchHit
  unfolding make_snippet
  hit_of db query r = record {
    conversation_id = r.conversation_id;
    turn_id = r.turn_id;
    client_turn_id = r.client_turn_id;
    speaker = r.speaker;
    snippet = make_snippet lower r.text query snippet_radius;
    title = title_of (get conversation_key r.conversation_id db.conversations);
    captured_at = r.captured_at;
    created_at = r.created_at;
  }

  -- The rows of the statement, before they become hits.
  unfoldable pub found_turns : WorkerDb → Text → ℕ → List TurnRow
  unfolding hit_order sort filter like_contains_pattern
  found_turns db query limit =
      let pattern = like_contains_pattern query in
      take limit (
        sort (λ a b. not_after (hit_order a b))
          (filter (λ t. has_conversation db t && like t.text pattern) db.turns))

  -- `searchTurns`
  unfoldable pub search_turns : WorkerDb → Text → ℕ → List SearchHit
  unfolding hit_of found_turns
  search_turns db query limit = map (hit_of db query) (found_turns db query limit)
