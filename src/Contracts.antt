-- ===== src/Contracts.antt =====
-- The wire protocol of packages/contracts/src/index.ts that both sides share. Optional fields are
-- `Option`. A sequence is an integer, a byte size a natural number.
use newell_ai.Common.{ℕ, Text, Option, Bool, List}
use newell_ai.Common.Int.{ℤ}

-- `Speaker`
pub data Speaker : Type 0 where
  user assistant : Speaker

pub record TurnPayload : Type 0 where
  pub client_turn_id : Text
  pub speaker : Speaker
  pub text : Text
  pub captured_at : Option Text
  pub sequence : Option ℤ
  pub parent_client_turn_id : Option Text
  pub message_type : Option Text
  pub topic : Option Text

pub record ConversationMetadata : Type 0 where
  pub conversation_id : Text
  pub user_id : Text
  pub title : Option Text
  pub source_model : Option Text
  pub started_at : Option Text

pub record CaptureMetadata : Type 0 where
  pub capture_client : Text
  pub capture_client_version : Option Text
  pub surface : Option Text
  pub captured_batch_id : Option Text

pub record UploadRequest : Type 0 where
  pub conversation : ConversationMetadata
  pub capture : CaptureMetadata
  pub turns : List TurnPayload

-- `ArtifactType` has one member in this version.
pub data ArtifactType : Type 0 where
  image : ArtifactType

pub data ArtifactDirection : Type 0 where
  user_uploaded assistant_generated : ArtifactDirection

pub data ImageProvenance : Type 0 where
  uploaded generated screenshot edited_derived : ImageProvenance

pub data ArtifactLinkageStatus : Type 0 where
  unresolved resolved orphan : ArtifactLinkageStatus

pub data ArtifactCaptureStatus : Type 0 where
  metadata_discovered pending_download stored failed_download rejected conflict :
      ArtifactCaptureStatus

pub record ArtifactCreateRequest : Type 0 where
  pub client_artifact_id : Text
  pub conversation_id : Text
  pub user_id : Text
  pub client_turn_id : Text
  pub direction : ArtifactDirection
  pub artifact_type : ArtifactType
  pub mime_type : Text
  pub declared_sha256 : Option Text
  pub declared_byte_size : Option ℕ
  pub original_filename : Option Text
  pub image_provenance : Option ImageProvenance
  pub parent_artifact_id : Option Text
  pub source_key : Option Text
  pub captured_at : Option Text
  pub capture : CaptureMetadata

pub record ArtifactAcceptResponse : Type 0 where
  pub artifact_id : Text
  pub client_artifact_id : Text
  pub conversation_id : Text
  pub capture_status : ArtifactCaptureStatus
  pub linkage_status : ArtifactLinkageStatus
  pub duplicate : Bool
  pub server_time : Text

pub record ArtifactRecord : Type 0 where
  pub artifact_id : Text
  pub client_artifact_id : Text
  pub conversation_id : Text
  pub turn_id : Option Text
  pub client_turn_id : Text
  pub linkage_status : ArtifactLinkageStatus
  pub direction : ArtifactDirection
  pub artifact_type : ArtifactType
  pub image_provenance : Option ImageProvenance
  pub original_filename : Option Text
  pub mime_type : Text
  pub byte_size : Option ℕ
  pub checksum : Option Text
  pub source_key : Option Text
  pub storage_backend : Option Text
  pub storage_location : Option Text
  pub capture_status : ArtifactCaptureStatus
  pub parent_artifact_id : Option Text
  pub capture_client : Text
  pub capture_client_version : Option Text
  pub surface : Option Text
  pub captured_at : Option Text
  pub created_at : Text

pub record ConversationSummary : Type 0 where
  pub conversation_id : Text
  pub user_id : Text
  pub title : Option Text
  pub source_model : Option Text
  pub started_at : Option Text
  pub created_at : Text
  pub last_turn_at : Option Text
  pub turn_count : ℕ

pub record TurnRecord : Type 0 where
  pub turn_id : Text
  pub conversation_id : Text
  pub client_turn_id : Text
  pub speaker : Speaker
  pub text : Text
  pub captured_at : Option Text
  pub sequence : Option ℤ
  pub parent_client_turn_id : Option Text
  pub message_type : Option Text
  pub topic : Option Text
  pub capture_client : Text
  pub capture_client_version : Option Text
  pub surface : Option Text
  pub captured_batch_id : Option Text
  pub created_at : Text

pub record SearchHit : Type 0 where
  pub conversation_id : Text
  pub turn_id : Text
  pub client_turn_id : Text
  pub speaker : Speaker
  pub snippet : Text
  pub title : Option Text
  pub captured_at : Option Text
  pub created_at : Text

pub record ArtifactStatusCounts : Type 0 where
  pub stored_count : ℕ
  pub pending_download_count : ℕ
  pub failed_download_count : ℕ
  pub other : ℕ
  pub bytes_missing : ℕ

pub record SystemStatus : Type 0 where
  pub conversation_count : ℕ
  pub turn_count : ℕ
  pub artifacts : ArtifactStatusCounts
  pub storage_available : Bool
  pub last_turn_at : Option Text
  pub last_artifact_at : Option Text
