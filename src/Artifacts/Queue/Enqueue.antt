-- ===== src/Artifacts/Queue/Enqueue.antt =====
-- `enqueueArtifact` and `attachArtifactBytes` of apps/extension/src/artifacts/queue.ts. Random ids
-- and times are arguments; a thrown error is `none`.
use newell_ai.Common.{
  ℕ, Text, trim, text_eq, Option, none, some, Bool, true, false, not, ◌&&◌, List, [], ◌∷◌,
  if◌then◌else◌,
}
use newell_ai.Common.Keys.{text_order, pair_order}
use newell_ai.Contracts.{image}
use newell_ai.Idb.{put, get}
use newell_ai.Artifacts.Types.{
  pending, ArtifactByteStatus, metadata_discovered, pending_download, ready, uploaded,
  failed_download, ArtifactQueueEnvelope, ArtifactEnqueueInput, ArtifactEnqueueResult, accepted,
  already_known, artifact_envelope_schema_version, ArtifactDb, artifact_key, artifact_identity_key,
}

-- `bytes !== undefined && bytes.byteLength > 0`
abbrev pub has_bytes : Option (List ℕ) → Bool
has_bytes none = false
has_bytes (some []) = false
has_bytes (some (b ∷ bs)) = true

abbrev pub declared_status : Option Text → ArtifactByteStatus
declared_status none = metadata_discovered
declared_status (some sha) = pending_download

-- `declared_byte_size` is only copied beside a checksum.
abbrev pub size_beside : Option Text → Option ℕ → Option ℕ
size_beside none size = none
size_beside (some sha) size = size

unfoldable pub new_artifact : ArtifactEnqueueInput → Text → Text → ℕ → ArtifactQueueEnvelope
new_artifact input client_artifact_id queue_uuid now = record {
  schema_version = artifact_envelope_schema_version;
  queue_id = queue_uuid;
  state = pending;
  attempts = 0;
  next_attempt_at = now;
  enqueued_at = now;
  conversation_id = input.conversation_id;
  user_id = input.user_id;
  client_artifact_id = client_artifact_id;
  client_turn_id = input.client_turn_id;
  direction = input.direction;
  artifact_type = image;
  mime_type = input.mime_type;
  declared_sha256 = input.declared_sha256;
  declared_byte_size = size_beside input.declared_sha256 input.declared_byte_size;
  original_filename = input.original_filename;
  image_provenance = input.image_provenance;
  source_key = none;
  source_url = input.source_url;
  captured_at = input.captured_at;
  capture = input.capture;
  artifact_id = none;
  byte_status = if has_bytes input.bytes then ready else declared_status input.declared_sha256;
  bytes = if has_bytes input.bytes then input.bytes else none;
}

-- The transaction of `enqueueArtifact` for a key that is not empty.
unfoldable pub register_artifact :
    ArtifactDb → ArtifactEnqueueInput → Text → Text → ℕ → ArtifactEnqueueResult × ArtifactDb
register_artifact db input source_key queue_uuid now =
    elim (get artifact_identity_key (input.conversation_id, source_key) db.identities) [
      | some existing ↦ (already_known existing.client_artifact_id, db)
      | none ↦ (
        accepted source_key,
        record db {
          identities =
              put artifact_identity_key
                (record {
                  conversation_id = input.conversation_id;
                  source_key = source_key;
                  client_artifact_id = source_key;
                })
                db.identities;
          queue = put artifact_key (new_artifact input source_key queue_uuid now) db.queue;
        },
      )
    ]

-- `enqueueArtifact`
unfoldable pub enqueue_artifact :
    ArtifactDb → ArtifactEnqueueInput → Text → ℕ → Option (ArtifactEnqueueResult × ArtifactDb)
unfolding register_artifact
enqueue_artifact db input queue_uuid now = elim (trim input.source_key) [
  | [] ↦ none
  | c ∷ s ↦ some (register_artifact db input (c ∷ s) queue_uuid now)
]

abbrev pub is_uploaded : ArtifactByteStatus → Bool
is_uploaded metadata_discovered = false
is_uploaded pending_download = false
is_uploaded ready = false
is_uploaded uploaded = true
is_uploaded failed_download = false

abbrev pub awaits_bytes : Text → Text → ArtifactQueueEnvelope → Bool
awaits_bytes conversation_id client_artifact_id e =
    text_eq e.conversation_id conversation_id
    && text_eq e.client_artifact_id client_artifact_id
    && not (is_uploaded e.byte_status)

-- `all.find(…)`
unfoldable pub find :
    (ArtifactQueueEnvelope → Bool) → List ArtifactQueueEnvelope → Option ArtifactQueueEnvelope
find p [] = none
find p (e ∷ s) = let later = find p s in if p e then some e else later

-- `attachArtifactBytes`
unfoldable pub attach_artifact_bytes :
    ArtifactDb → Text → Text → List ℕ → Text → ℕ → ℕ → Bool × ArtifactDb
unfolding find
attach_artifact_bytes db conversation_id client_artifact_id bytes sha size now =
    elim (find (awaits_bytes conversation_id client_artifact_id) db.queue) [
      | none ↦ (false, db)
      | some item ↦ (
        true,
        record db {
          queue =
              put artifact_key
                (record item {
                  bytes = some bytes;
                  declared_sha256 = some sha;
                  declared_byte_size = some size;
                  byte_status = ready;
                  state = pending;
                  next_attempt_at = now;
                })
                db.queue;
        },
      )
    ]
