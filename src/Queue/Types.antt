-- ===== src/Queue/Types.antt =====
-- apps/extension/src/queue/types.ts
use newell_ai.Common.{ℕ, ◌*◌, ◌-◌, ◌^◌, min, Text, Option, Bool}
use newell_ai.Common.Int.{ℤ}
use newell_ai.Contracts.{TurnPayload, ConversationMetadata, CaptureMetadata, Speaker}

-- `ENVELOPE_SCHEMA_VERSION`
abbrev pub envelope_schema_version : ℕ
envelope_schema_version = 1

pub data QueueState : Type 0 where
  pending in_flight auth_blocked : QueueState

pub record QueueEnvelope : Type 0 where
  pub schema_version : ℕ
  pub queue_id : Text
  pub state : QueueState
  pub attempts : ℕ
  pub next_attempt_at : ℕ
  pub enqueued_at : ℕ
  pub conversation : ConversationMetadata
  pub capture : CaptureMetadata
  pub turn : TurnPayload

pub record DeadLetter : Type 0 where
  pub envelope : QueueEnvelope
  pub reason : Text
  pub dead_at : ℕ

pub record IdentityRecord : Type 0 where
  pub conversation_id : Text
  pub source_key : Text
  pub client_turn_id : Text
  pub sequence : ℕ

-- `Omit<TurnPayload, "client_turn_id" | "sequence">`
pub record TurnContent : Type 0 where
  pub speaker : Speaker
  pub text : Text
  pub captured_at : Option Text
  pub parent_client_turn_id : Option Text
  pub message_type : Option Text
  pub topic : Option Text

pub record EnqueueInput : Type 0 where
  pub conversation : ConversationMetadata
  pub capture : CaptureMetadata
  pub source_key : Option Text
  pub turn : TurnContent

-- `EnqueueResult`: the client turn id and the sequence
pub data EnqueueResult : Type 0 where
  accepted : Text → ℕ → EnqueueResult
  already_known : Text → ℕ → EnqueueResult

pub record QueueStatus : Type 0 where
  pub pending : ℕ
  pub auth_blocked : ℕ
  pub in_flight : ℕ
  pub dead : ℕ
  pub oldest_pending_age_ms : Option ℤ
  pub last_error : Option Text
  pub last_success_at : Option ℕ

pub record SyncOutcome : Type 0 where
  pub delivered : ℕ
  pub retried : ℕ
  pub dead_lettered : ℕ
  pub auth_blocked : ℕ
  pub idle : Bool

abbrev pub retry_base_ms : ℕ
retry_base_ms = 5000

abbrev pub retry_cap_ms : ℕ
retry_cap_ms = 5 * 60000

abbrev pub max_attempts : ℕ
max_attempts = 5

abbrev pub max_batch_turns : ℕ
max_batch_turns = 25

-- `backoffMs`
unfoldable pub backoff_ms : ℕ → ℕ
backoff_ms attempts = min (retry_base_ms * 2 ^ (attempts - 1)) retry_cap_ms
