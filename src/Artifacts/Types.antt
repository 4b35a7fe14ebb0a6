-- ===== src/Artifacts/Types.antt =====
-- apps/extension/src/artifacts/types.ts, and the stores that db.ts there creates. Bytes are lists
-- of numbers below 256.
use newell_ai.Common.{
  ℕ, ◌-◌, ◌*◌, ◌^◌, min, Text, codes, Option, none, some, Bool, List, ◌++◌, take, drop, length, ltb,
  if◌then◌else◌,
}
use newell_ai.Common.Int.{ℤ}
use newell_ai.Contracts.{CaptureMetadata, ArtifactDirection, ArtifactType}

abbrev pub artifact_envelope_schema_version : ℕ
artifact_envelope_schema_version = 1

pub data ArtifactQueueState : Type 0 where
  pending in_flight auth_blocked : ArtifactQueueState

pub data ArtifactByteStatus : Type 0 where
  metadata_discovered pending_download ready uploaded failed_download : ArtifactByteStatus

pub record ArtifactQueueEnvelope : Type 0 where
  pub schema_version : ℕ
  pub queue_id : Text
  pub state : ArtifactQueueState
  pub attempts : ℕ
  pub next_attempt_at : ℕ
  pub enqueued_at : ℕ
  pub conversation_id : Text
  pub user_id : Text
  pub client_artifact_id : Text
  pub client_turn_id : Text
  pub direction : ArtifactDirection
  pub artifact_type : ArtifactType
  pub mime_type : Text
  pub declared_sha256 : Option Text
  pub declared_byte_size : Option ℕ
  pub original_filename : Option Text
  pub image_provenance : Option Text
  pub source_key : Option Text
  pub source_url : Option Text
  pub captured_at : Option Text
  pub capture : CaptureMetadata
  pub artifact_id : Option Text
  pub byte_status : ArtifactByteStatus
  pub bytes : Option (List ℕ)

pub record ArtifactDeadLetter : Type 0 where
  pub envelope : ArtifactQueueEnvelope
  pub reason : Text
  pub dead_at : ℕ

pub record ArtifactConflictNotice : Type 0 where
  pub client_artifact_id : Text
  pub conversation_id : Text
  pub artifact_type : ArtifactType
  pub original_filename : Option Text
  pub checksum_fingerprint : Option Text
  pub reason : Text
  pub conflict_at : ℕ
  pub dismissed : Bool

pub record ArtifactIdentityRecord : Type 0 where
  pub conversation_id : Text
  pub source_key : Text
  pub client_artifact_id : Text

pub record ArtifactEnqueueInput : Type 0 where
  pub conversation_id : Text
  pub user_id : Text
  pub client_turn_id : Text
  pub source_key : Text
  pub direction : ArtifactDirection
  pub mime_type : Text
  pub declared_sha256 : Option Text
  pub declared_byte_size : Option ℕ
  pub original_filename : Option Text
  pub image_provenance : Option Text
  pub source_url : Option Text
  pub captured_at : Option Text
  pub capture : CaptureMetadata
  pub bytes : Option (List ℕ)

pub data ArtifactEnqueueResult : Type 0 where
  accepted : Text → ArtifactEnqueueResult
  already_known : Text → ArtifactEnqueueResult

pub record ArtifactQueueStatus : Type 0 where
  pub pending : ℕ
  pub auth_blocked : ℕ
  pub in_flight : ℕ
  pub dead : ℕ
  pub conflicts : ℕ
  pub oldest_pending_age_ms : Option ℤ
  pub last_error : Option Text
  pub last_success_at : Option ℕ

pub record ArtifactSyncOutcome : Type 0 where
  pub delivered : ℕ
  pub retried : ℕ
  pub dead_lettered : ℕ
  pub auth_blocked : ℕ
  pub conflicts : ℕ
  pub idle : Bool

abbrev pub artifact_retry_base_ms : ℕ
artifact_retry_base_ms = 5000

abbrev pub artifact_retry_cap_ms : ℕ
artifact_retry_cap_ms = 5 * 60000

abbrev pub artifact_max_attempts : ℕ
artifact_max_attempts = 5

-- `artifactBackoffMs`
unfoldable pub artifact_backoff_ms : ℕ → ℕ
artifact_backoff_ms attempts =
    min (artifact_retry_base_ms * 2 ^ (attempts - 1)) artifact_retry_cap_ms

-- `hex.slice(0, 8)`, an ellipsis and `hex.slice(-4)`
abbrev pub fingerprint : Text → Text
fingerprint hex = take 8 hex ++ codes "…" ++ drop (length hex - 4) hex

-- `shortenChecksum`
unfoldable pub shorten_checksum : Option Text → Option Text
shorten_checksum none = none
shorten_checksum (some hex) = if ltb (length hex) 12 then some hex else some (fingerprint hex)

-- The record with the key "singleton" in the store `status`.
pub record ArtifactStatusRecord : Type 0 where
  pub last_error : Option Text
  pub last_success_at : Option ℕ

-- `ARTIFACT_STORES`
pub record ArtifactDb : Type 0 where
  pub queue : List ArtifactQueueEnvelope
  pub dead : List ArtifactDeadLetter
  pub conflicts : List ArtifactConflictNotice
  pub identities : List ArtifactIdentityRecord
  pub status : Option ArtifactStatusRecord

abbrev pub artifact_key : ArtifactQueueEnvelope → Text
artifact_key e = e.queue_id

abbrev pub artifact_dead_key : ArtifactDeadLetter → Text
artifact_dead_key d = d.envelope.queue_id

abbrev pub conflict_key : ArtifactConflictNotice → Text
conflict_key c = c.client_artifact_id

abbrev pub artifact_identity_key : ArtifactIdentityRecord → Text × Text
artifact_identity_key r = (r.conversation_id, r.source_key)
