-- ===== src/Queue/Db.antt =====
-- The stores that `openQueueDb` of apps/extension/src/queue/db.ts creates, with their key paths.
use newell_ai.Common.{ℕ, Text, Option, List}
use newell_ai.Queue.Types.{QueueEnvelope, DeadLetter, IdentityRecord}

-- The counter of a conversation in the store `sequences`.
pub record SequenceRecord : Type 0 where
  pub conversation_id : Text
  pub next_sequence : ℕ

-- The record with the key "sync" in the store `status`.
pub record StatusRecord : Type 0 where
  pub last_error : Option Text
  pub last_success_at : Option ℕ

pub record QueueDb : Type 0 where
  pub queue : List QueueEnvelope
  pub dead : List DeadLetter
  pub identities : List IdentityRecord
  pub sequences : List SequenceRecord
  pub status : Option StatusRecord

abbrev pub queue_key : QueueEnvelope → Text
queue_key e = e.queue_id

abbrev pub dead_key : DeadLetter → Text
dead_key d = d.envelope.queue_id

abbrev pub identity_key : IdentityRecord → Text × Text
identity_key r = (r.conversation_id, r.source_key)

abbrev pub sequence_key : SequenceRecord → Text
sequence_key r = r.conversation_id
