-- ===== src/Queue/Sync/Select.antt =====
-- The first transaction of `syncOnce`: choosing the due batch and marking it in flight.
use newell_ai.Common.{
  ℕ, Text, text_eq, Option, none, some, Bool, ◌&&◌, List, [], ◌∷◌, map, filter, take, ltb, leb,
  or_else, if◌then◌else◌, Ordering,
}
use newell_ai.Common.Keys.{text_order}
use newell_ai.Common.Int.{pos, leb_ℤ}
use newell_ai.Common.Sorting.{sort}
use newell_ai.Idb.{put_all}
use newell_ai.Queue.Types.{pending, in_flight, QueueEnvelope, max_batch_turns}
use newell_ai.Queue.Db.{queue_key}
use newell_ai.Queue.Operations.{has_state, to_pending}

-- The loop that reverts abandoned records changes them in `all` too.
abbrev pub revert : QueueEnvelope → QueueEnvelope
revert e = if has_state in_flight e then to_pending e else e

abbrev pub conversation_of : QueueEnvelope → Text
conversation_of e = e.conversation.conversation_id

abbrev pub is_due : ℕ → QueueEnvelope → Bool
is_due now e = has_state pending e && leb e.next_attempt_at now

-- One round of the loop over `due` that fills `oldestByConversation`; a `Map` keeps the order in
-- which its keys were added.
unfoldable pub note_oldest : Text → ℕ → List (Text × ℕ) → List (Text × ℕ)
note_oldest id t [] = (id, t) ∷ []
note_oldest id t ((c, u) ∷ m) =
    let later = note_oldest id t m in
    if text_eq c id then (c, if ltb t u then t else u) ∷ m else (c, u) ∷ later

unfoldable pub oldest_by_conversation : List (Text × ℕ) → List QueueEnvelope → List (Text × ℕ)
unfolding note_oldest
oldest_by_conversation m [] = m
oldest_by_conversation m (e ∷ due) =
    oldest_by_conversation (note_oldest (conversation_of e) e.enqueued_at m) due

-- `(a.turn.sequence ?? 0) - (b.turn.sequence ?? 0) <= 0`
abbrev pub turn_order : QueueEnvelope → QueueEnvelope → Bool
turn_order a b = leb_ℤ (or_else a.turn.sequence (pos 0)) (or_else b.turn.sequence (pos 0))

-- `due.filter(…).sort(…).slice(0, MAX_BATCH_TURNS)`
unfoldable pub batch_of : Text → List QueueEnvelope → List QueueEnvelope
batch_of target due =
    take max_batch_turns (sort turn_order (filter (λ e. text_eq (conversation_of e) target) due))

abbrev pub to_in_flight : QueueEnvelope → QueueEnvelope
to_in_flight e = record e { state = in_flight }

abbrev pub first_key : List (Text × ℕ) → Option Text
first_key [] = none
first_key (x ∷ xs) = some x.0

abbrev pub chosen : Option Text → List QueueEnvelope → List QueueEnvelope
chosen none due = []
chosen (some target) due = batch_of target due

module _ (locale_compare : Text → Text → Ordering) where
  -- `a[1] - b[1] || a[0].localeCompare(b[0])` is at most 0
  abbrev pub entry_order : Text × ℕ → Text × ℕ → Bool
  entry_order a b = elim (locale_compare a.0 b.0) [ Ordering.gt ↦ ltb a.1 b.1 | _ ↦ leb a.1 b.1 ]

  -- The oldest conversation among the due records; `none` if nothing is due.
  unfoldable pub target_conversation : List QueueEnvelope → Option Text
  unfolding oldest_by_conversation
  target_conversation due = first_key (sort entry_order (oldest_by_conversation [] due))

  -- The batch, and the store `queue` behind the transaction.
  unfoldable pub select_batch : ℕ → List QueueEnvelope → List QueueEnvelope × List QueueEnvelope
  unfolding target_conversation batch_of
  select_batch now queue =
      let all = map revert queue in
      let reverted =
        put_all queue_key (map to_pending (filter (has_state in_flight) queue)) queue in
      let due = filter (is_due now) all in
      let batch = chosen (target_conversation due) due in
      (batch, put_all queue_key (map to_in_flight batch) reverted)
