-- ===== src/Queue/Enqueue.antt =====
-- Acceptance of a turn: `validateSourceKey`, `enqueue` and `lookupClientTurnId` of
-- apps/extension/src/queue/queue.ts. The two `crypto.randomUUID()` values and the time are
-- arguments.
use newell_ai.Common.{
  ℕ, ◌+◌, Text, trim, Option, none, some, Bool, ◌||◌, ltb, leb, length, any, or_else, if◌then◌else◌,
  ◌==◌,
}
use newell_ai.Common.Keys.{text_order, pair_order}
use newell_ai.Contracts.{TurnPayload}
use newell_ai.Idb.{put, get}
use newell_ai.Queue.Types.{
  QueueEnvelope, pending, IdentityRecord, TurnContent, EnqueueInput, EnqueueResult, accepted,
  already_known, envelope_schema_version,
}
use newell_ai.Common.Int.{pos}
use newell_ai.Queue.Db.{QueueDb, SequenceRecord, queue_key, identity_key, sequence_key}

-- `MAX_SOURCE_KEY_LENGTH`
abbrev pub max_source_key_length : ℕ
max_source_key_length = 128

-- `/[\u0000-\u001f\u007f]/`
abbrev pub is_control : ℕ → Bool
is_control c = leb c 0x1f || c == 0x7f

usable_key : Text → Option Text
usable_key trimmed =
    if length trimmed == 0 || ltb max_source_key_length (length trimmed)
    then none
    else if any is_control trimmed
    then none
    else some trimmed

-- `validateSourceKey`
unfoldable pub validate_source_key : Option Text → Option Text
unfolding usable_key any
validate_source_key none = none
validate_source_key (some source_key) = usable_key (trim source_key)

-- `{ ...input.turn, client_turn_id, sequence }`
abbrev pub numbered_turn : TurnContent → Text → ℕ → TurnPayload
numbered_turn t client_turn_id sequence = record {
  client_turn_id = client_turn_id;
  speaker = t.speaker;
  text = t.text;
  captured_at = t.captured_at;
  sequence = some (pos sequence);
  parent_client_turn_id = t.parent_client_turn_id;
  message_type = t.message_type;
  topic = t.topic;
}

-- `counter?.next_sequence ?? 1`
abbrev pub next_of : Option SequenceRecord → ℕ
next_of none = 1
next_of (some r) = r.next_sequence

unfoldable pub next_turn_sequence : QueueDb → Text → ℕ
next_turn_sequence db conversation_id = next_of (get sequence_key conversation_id db.sequences)

abbrev pub new_envelope : EnqueueInput → Text → ℕ → Text → ℕ → QueueEnvelope
new_envelope input client_turn_id sequence queue_uuid now = record {
  schema_version = envelope_schema_version;
  queue_id = queue_uuid;
  state = pending;
  attempts = 0;
  next_attempt_at = now;
  enqueued_at = now;
  conversation = input.conversation;
  capture = input.capture;
  turn = numbered_turn input.turn client_turn_id sequence;
}

abbrev pub new_identity : Text → Text → Text → ℕ → IdentityRecord
new_identity conversation_id source_key client_turn_id sequence = record {
  conversation_id = conversation_id;
  source_key = source_key;
  client_turn_id = client_turn_id;
  sequence = sequence;
}

abbrev pub counter : Text → ℕ → SequenceRecord
counter conversation_id next = record { conversation_id = conversation_id; next_sequence = next }

-- The part of the transaction behind a miss in the identity registry.
unfoldable pub accept : QueueDb → EnqueueInput → Text → Text → Text → ℕ → EnqueueResult × QueueDb
accept db input client_turn_id source_key queue_uuid now =
    let c = input.conversation.conversation_id in
    let sequence = next_turn_sequence db c in
    (
      accepted client_turn_id sequence,
      record db {
        sequences = put sequence_key (counter c (sequence + 1)) db.sequences;
        identities =
            put identity_key (new_identity c source_key client_turn_id sequence) db.identities;
        queue = put queue_key (new_envelope input client_turn_id sequence queue_uuid now) db.queue;
      },
    )

-- `enqueue`
unfoldable pub enqueue : QueueDb → EnqueueInput → Text → Text → ℕ → EnqueueResult × QueueDb
enqueue db input turn_uuid queue_uuid now =
    let validated = validate_source_key input.source_key in
    let client_turn_id = or_else validated turn_uuid in
    let source_key = or_else validated client_turn_id in
    let conversation_id = input.conversation.conversation_id in
    elim (get identity_key (conversation_id, source_key) db.identities) [
      | some existing ↦ (already_known existing.client_turn_id existing.sequence, db)
      | none ↦ accept db input client_turn_id source_key queue_uuid now
    ]

-- `lookupClientTurnId`
unfoldable pub lookup_client_turn_id : QueueDb → Text → Text → Option Text
lookup_client_turn_id db conversation_id source_key = elim (validate_source_key (some source_key)) [
  | none ↦ none
  | some validated ↦ elim (get identity_key (conversation_id, validated) db.identities) [
    | none ↦ none
    | some existing ↦ some existing.client_turn_id
  ]
]
