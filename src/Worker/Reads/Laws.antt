-- ===== src/Worker/Reads/Laws.antt =====
-- What the queries of apps/worker/src/db/reads.ts return, in which order, and that no row is lost;
-- and the limit of a search.
use newell_ai.Common.{
  ℕ, ◌≤◌, Text, Option, none, some, Bool, true, ◌&&◌, List, map, length, ◌≡◌, ap, inl, inr,
  Bool-cases, arith, count_if, text_eq, ◌==◌, ltb, min, trim,
}
use newell_ai.Common.Comparing.{
  not_after, text_cmp-IsComparison, descending-IsComparison, then_by-IsComparison, on-IsComparison,
  nulls_last-IsComparison, sort-IsOrdered, IsComparison,
}
use newell_ai.Common.Keys.{text_order, text_cmp}
use newell_ai.Common.Int.{ℤ, leb_ℤ}
use newell_ai.Common.Sorting.{IsSorted, sort-count}
use newell_ai.Contracts.{ConversationSummary, TurnRecord}
use newell_ai.Worker.Artifacts.{Outcome, returned, thrown}
use newell_ai.Worker.Db.{TurnRow, WorkerDb}
use newell_ai.Worker.Reads.{
  summary_order, list_conversations, summary_of, parse_search_limit, positive_limit, parse_int,
  search_limit_max,
}

summary_order-IsComparison : IsComparison summary_order
unfolding summary_order
summary_order-IsComparison =
    then_by-IsComparison _ _
      (on-IsComparison (λ (a : ConversationSummary). a.last_turn_at) _
        (nulls_last-IsComparison _ (descending-IsComparison _ text_cmp-IsComparison)))
      (on-IsComparison (λ (a : ConversationSummary). a.conversation_id) _ text_cmp-IsComparison)

-- The first was not created after the second, and of two created at once it has the smaller id.
abbrev pub IsEarlier : Text → Text → Text → Text → Type 0
IsEarlier created_a id_a created_b id_b =
    (not_after (text_cmp created_a created_b) ≡ true)
    × (created_a ≡ created_b → not_after (text_cmp id_a id_b) ≡ true)

-- The smaller number is first, a number is before none, and `ties` decides between equal ones.
abbrev pub IsNumberedBefore : Option ℤ → Option ℤ → Type 0 → Type 0
IsNumberedBefore none none ties = ties
IsNumberedBefore none (some n) ties = ⊥
IsNumberedBefore (some m) none ties = Unit
IsNumberedBefore (some m) (some n) ties = (leb_ℤ m n ≡ true) × (leb_ℤ n m ≡ true → ties)

abbrev pub IsReadBefore : TurnRecord → TurnRecord → Type 0
IsReadBefore a b =
    IsNumberedBefore a.sequence b.sequence (IsEarlier a.created_at a.turn_id b.created_at b.turn_id)

-- The records are in their order, and for every test they have as many members that pass it as the
-- table has rows of the conversation whose fields pass it.
abbrev pub IsReading : WorkerDb → Text → List TurnRecord → Type 0
IsReading db id rs =
    IsSorted IsReadBefore rs
    × ((p : TurnRecord → Bool)
        → count_if p rs
          ≡ count_if
              (λ (t : TurnRow).
                text_eq t.conversation_id id
                && p (record {
                  turn_id = t.turn_id;
                  conversation_id = t.conversation_id;
                  client_turn_id = t.client_turn_id;
                  speaker = t.speaker;
                  text = t.text;
                  captured_at = t.captured_at;
                  sequence = t.sequence;
                  parent_client_turn_id = t.parent_client_turn_id;
                  message_type = t.message_type;
                  topic = t.topic;
                  capture_client = t.capture_client;
                  capture_client_version = t.capture_client_version;
                  surface = t.surface;
                  captured_batch_id = t.captured_batch_id;
                  created_at = t.created_at;
                }))
              db.turns)

returned-inj : {A : Type 0} {x y : A} → returned x ≡ returned y → x ≡ y
returned-inj {A} {x} e = ap (λ (o : Outcome A). elim o [ returned z ↦ z | thrown z ↦ x ]) e

-- Every conversation is listed exactly once, the ones without turns too, latest turn first and the
-- conversations without turns last.
pub list_conversations-IsOrdered :
    (db : WorkerDb)
    → IsSorted (λ a b. not_after (summary_order a b) ≡ true) (list_conversations db)
      × ((p : ConversationSummary → Bool)
          → count_if p (list_conversations db)
            ≡ count_if p (map (summary_of db.turns) db.conversations))
unfolding list_conversations
list_conversations-IsOrdered db =
    let rows = map (summary_of db.turns) db.conversations in
    (sort-IsOrdered summary_order summary_order-IsComparison rows, λ p. sort-count _ p rows)

positive_limit_range :
    (o : Option ℕ) (n : ℕ) → positive_limit o ≡ returned n → (1 ≤ n) × (n ≤ search_limit_max)
positive_limit_range none n e = ground arith
positive_limit_range (some k) n e = elim (Bool-cases (ltb k 1)) [
  | inl h ↦ let bad : thrown _ ≡ returned n = rw h at e in ground arith
  | inr h ↦ let same : min k search_limit_max ≡ n = returned-inj (rw h at e) in ground arith
]

-- A limit that is accepted lies between one and the maximum, whatever text was sent.
pub parse_search_limit_range :
    (raw : Option Text) (n : ℕ)
    → parse_search_limit raw ≡ returned n
    → (1 ≤ n) × (n ≤ search_limit_max)
unfolding parse_search_limit
parse_search_limit_range none n e = let same = returned-inj e in ground arith
parse_search_limit_range (some raw) n e = elim (Bool-cases (length (trim raw) == 0)) [
  | inl h ↦ let same : 25 ≡ n = returned-inj (rw h at e) in ground arith
  | inr h ↦ positive_limit_range (parse_int raw) n (rw h at e)
]
