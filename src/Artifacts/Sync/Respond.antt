-- ===== src/Artifacts/Sync/Respond.antt =====
-- What apps/extension/src/artifacts/sync.ts does to the stores for an answer of the server. `clock`
-- is what `Date.now()` returns when a letter or a notice is written, `now` the time of the sync.
use newell_ai.Common.{
  ℕ, ◌+◌, Text, codes, decimal, Option, none, some, Bool, false, ◌&&◌, ◌++◌, ltb, leb, ◌==◌,
  if◌then◌else◌,
}
use newell_ai.Common.Keys.{text_order}
use newell_ai.Idb.{put, get, delete}
use newell_ai.Artifacts.Types.{
  ArtifactQueueEnvelope, ArtifactDb, ArtifactSyncOutcome, pending, artifact_key, artifact_dead_key,
  conflict_key, artifact_max_attempts, artifact_backoff_ms,
}
use newell_ai.Artifacts.Queue.{
  StatusPatch, set_artifact_status, conflict_notice_from_envelope, block,
}

abbrev pub nothing : ArtifactSyncOutcome
nothing = record {
  delivered = 0;
  retried = 0;
  dead_lettered = 0;
  auth_blocked = 0;
  conflicts = 0;
  idle = false;
}

abbrev pub last_error_only : Text → StatusPatch
last_error_only e = record { last_error = some (some e); last_success_at = none }

-- `patchEnvelope`; the patch is a function of the stored record.
unfoldable pub patch_envelope :
    Text → (ArtifactQueueEnvelope → ArtifactQueueEnvelope) → ArtifactDb → ArtifactDb
patch_envelope queue_id patch db = elim (get artifact_key queue_id db.queue) [
  | none ↦ db
  | some item ↦ record db { queue = put artifact_key (patch item) db.queue }
]

-- `markArtifactAuthBlocked`
unfoldable pub mark_artifact_auth_blocked : Text → ArtifactDb → ArtifactDb
unfolding patch_envelope
mark_artifact_auth_blocked queue_id = patch_envelope queue_id block

-- `dequeueArtifact`
unfoldable pub dequeue_artifact : Text → ArtifactDb → ArtifactDb
dequeue_artifact queue_id db = record db { queue = delete artifact_key queue_id db.queue }

abbrev pub without_bytes : ArtifactQueueEnvelope → ArtifactQueueEnvelope
without_bytes e = record e { bytes = none }

-- `res.ok`
abbrev pub is_ok : ℕ → Bool
is_ok status = leb 200 status && ltb status 300

module _ (clock : ℕ) where
  -- `deadLetterArtifact`
  unfoldable pub dead_letter_artifact : ArtifactQueueEnvelope → Text → ArtifactDb → ArtifactDb
  unfolding set_artifact_status
  dead_letter_artifact item reason db = set_artifact_status (last_error_only reason) (record db {
    queue = delete artifact_key item.queue_id db.queue;
    dead =
        put artifact_dead_key
          (record { envelope = without_bytes item; reason = reason; dead_at = clock }) db.dead;
  })

  -- `conflictAndRemove`
  unfoldable pub conflict_and_remove : ArtifactQueueEnvelope → Text → ArtifactDb → ArtifactDb
  unfolding set_artifact_status conflict_notice_from_envelope
  conflict_and_remove item reason db =
      set_artifact_status (last_error_only (codes "artifact_checksum_conflict")) (record db {
        queue = delete artifact_key item.queue_id db.queue;
        conflicts = put conflict_key (conflict_notice_from_envelope item reason clock) db.conflicts;
      })

  -- `retryOrDead`
  unfoldable pub retry_or_dead :
      ArtifactQueueEnvelope → Text → ℕ → ArtifactDb → ArtifactSyncOutcome × ArtifactDb
  unfolding dead_letter_artifact patch_envelope set_artifact_status
  retry_or_dead item reason now db =
      let attempts = item.attempts + 1 in
      if leb artifact_max_attempts attempts
      then (record nothing { dead_lettered = 1 }, dead_letter_artifact item reason db)
      else (
        record nothing { retried = 1 },
        set_artifact_status (last_error_only reason) (
            patch_envelope item.queue_id
              (λ e. record e {
                state = pending;
                attempts = attempts;
                next_attempt_at = now + artifact_backoff_ms attempts;
              })
              db),
      )

  -- The checks of a response, which both phases make; `none` lets the phase go on.
  unfoldable pub auth_refused :
      ArtifactQueueEnvelope → ℕ → ℕ → ArtifactDb → Option (ArtifactSyncOutcome × ArtifactDb)
  unfolding mark_artifact_auth_blocked set_artifact_status conflict_and_remove dead_letter_artifact
      retry_or_dead
  auth_refused item status now db =
      if status == 401
      then some (
        record nothing { auth_blocked = 1 },
        set_artifact_status (last_error_only (codes "Unauthorized"))
            (mark_artifact_auth_blocked item.queue_id db),
      )
      else if status == 409
      then some (
        record nothing { conflicts = 1 },
        conflict_and_remove item (codes "checksum_conflict") db,
      )
      else if leb 400 status && ltb status 500
      then some (
        record nothing { dead_lettered = 1 },
        dead_letter_artifact item (codes "http_" ++ decimal status) db,
      )
      else if is_ok status
      then none
      else some (retry_or_dead item (codes "http_" ++ decimal status) now db)
