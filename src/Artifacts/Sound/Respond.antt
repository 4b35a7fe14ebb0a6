-- ===== src/Artifacts/Sound/Respond.antt =====
-- What an answer of the server does to the stores keeps the records sound.
use newell_ai.Common.{
  ℕ, codes, decimal, ◌++◌, ◌+◌, Text, some, ◌≡◌, refl, arith, Option-cases, Bool-cases, inl, inr,
  leb,
}
use newell_ai.Common.Keys.{text_order}
use newell_ai.Idb.{get}
use newell_ai.Idb.Members.{put-All, delete-All, get-All}
use newell_ai.Token.{invalid_token_message}
use newell_ai.Artifacts.Types.{
  ArtifactQueueEnvelope, ArtifactDb, ArtifactSyncOutcome, artifact_max_attempts, artifact_key,
  artifact_dead_key,
}
use newell_ai.Artifacts.Queue.{block, set_artifact_status, StatusPatch}
use newell_ai.Artifacts.Sound.{
  IsTransferable, IsEmptied, IsSound, rewrite_where-IsSound, set_artifact_status-IsSound,
}
use newell_ai.Artifacts.Sync.Select.{hold_artifact_auth_blocked}
use newell_ai.Artifacts.Sync.Respond.{
  patch_envelope, mark_artifact_auth_blocked, dequeue_artifact, dead_letter_artifact,
  conflict_and_remove, retry_or_dead, auth_refused, last_error_only,
}
use newell_ai.Artifacts.Sync.Once.{hold_artifacts_for_token}

module _ (db : ArtifactDb) (h : IsSound db) where
  pub patch_envelope-IsSound :
      (id : Text) (patch : ArtifactQueueEnvelope → ArtifactQueueEnvelope)
      → ((e : ArtifactQueueEnvelope) → IsTransferable e → IsTransferable (patch e))
      → IsSound (patch_envelope id patch db)
  unfolding patch_envelope
  patch_envelope-IsSound id patch keep = elim (Option-cases (get artifact_key id db.queue)) [
    | inl absent ↦ rw (absent, patch_envelope) h
    | inr (e, found) ↦
        rw (found, patch_envelope)
          (record {
            waiting =
                put-All artifact_key IsTransferable (patch e) db.queue
                  (keep e (get-All artifact_key IsTransferable id db.queue e h.waiting found))
                  h.waiting;
            emptied = h.emptied;
          })
  ]

  pub dead_letter_artifact-IsSound :
      (clock : ℕ) (item : ArtifactQueueEnvelope) (reason : Text)
      → IsSound (dead_letter_artifact clock item reason db)
  unfolding dead_letter_artifact set_artifact_status
  dead_letter_artifact-IsSound clock item reason = record {
    waiting = delete-All artifact_key IsTransferable _ db.queue h.waiting;
    emptied = put-All artifact_dead_key IsEmptied _ db.dead refl h.emptied;
  }

  pub conflict_and_remove-IsSound :
      (clock : ℕ) (item : ArtifactQueueEnvelope) (reason : Text)
      → IsSound (conflict_and_remove clock item reason db)
  unfolding conflict_and_remove set_artifact_status
  conflict_and_remove-IsSound clock item reason = record {
    waiting = delete-All artifact_key IsTransferable _ db.queue h.waiting;
    emptied = h.emptied;
  }

  pub retry_or_dead-IsSound :
      (clock : ℕ) (item : ArtifactQueueEnvelope) (reason : Text) (now : ℕ)
      → IsSound (retry_or_dead clock item reason now db).1
  unfolding retry_or_dead
  retry_or_dead-IsSound clock item reason now =
      elim (Bool-cases (leb artifact_max_attempts (item.attempts + 1))) [
        | inl spent ↦ rw (spent, retry_or_dead) (dead_letter_artifact-IsSound clock item reason)
        | inr left ↦
            rw (left, retry_or_dead)
              (set_artifact_status-IsSound _
                (patch_envelope-IsSound item.queue_id _ (λ e p. (ground arith, p.1)))
                (last_error_only reason))
      ]

  pub delivered-IsSound :
      (id : Text) (patch : StatusPatch)
      → IsSound (set_artifact_status patch (dequeue_artifact id db))
  unfolding dequeue_artifact set_artifact_status
  delivered-IsSound id patch = record {
    waiting = delete-All artifact_key IsTransferable id db.queue h.waiting;
    emptied = h.emptied;
  }

  pub hold_artifacts_for_token-IsSound : IsSound (hold_artifacts_for_token db).db
  unfolding hold_artifacts_for_token hold_artifact_auth_blocked
  hold_artifacts_for_token-IsSound =
      set_artifact_status-IsSound _ (rewrite_where-IsSound _ _ db (λ e p. p) h)
        (last_error_only invalid_token_message)

  pub auth_refused-IsSound :
      (clock : ℕ) (item : ArtifactQueueEnvelope) (status now : ℕ)
      (r : ArtifactSyncOutcome × ArtifactDb)
      → auth_refused clock item status now db ≡ some r
      → IsSound r.1
  unfolding auth_refused mark_artifact_auth_blocked
  auth_refused-IsSound clock item status now r e = ground (
    arith,
    set_artifact_status-IsSound _ (patch_envelope-IsSound item.queue_id block (λ e p. p))
        (last_error_only (codes "Unauthorized")),
    conflict_and_remove-IsSound clock item (codes "checksum_conflict"),
    dead_letter_artifact-IsSound clock item (codes "http_" ++ decimal status),
    retry_or_dead-IsSound clock item (codes "http_" ++ decimal status) now,
  )
