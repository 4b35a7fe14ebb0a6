-- ===== src/Artifacts/Sync/Kept.antt =====
-- What becomes of an artifact while the queue is synced.
use newell_ai.Common.{
  ℕ, ◌+◌, Text, codes, decimal, some, Bool, true, ◌||◌, List, ◌++◌, map, filter, ◌≡◌, arith, leb,
  inl, inr, Option-cases, Bool-cases,
}
use newell_ai.Common.Keys.{text_order, same_key_iff}
use newell_ai.Idb.{get}
use newell_ai.Idb.Laws.{get-put, get-delete}
use newell_ai.Idb.Members.{holds, holds-put, holds-put_all}
use newell_ai.Artifacts.Types.{
  ArtifactQueueEnvelope, ArtifactDeadLetter, ArtifactDb, ArtifactSyncOutcome, artifact_key,
  artifact_dead_key, conflict_key, artifact_max_attempts,
}
use newell_ai.Artifacts.Sync.Select.{
  select_due_artifact, first_due, revert_artifact, start_transfer, hold_artifact_auth_blocked,
}
use newell_ai.Artifacts.Sync.Once.{hold_artifacts_for_token}
use newell_ai.Artifacts.Queue.{
  is_pending, is_in_flight, pend, rewrite_where, block, set_artifact_status, StatusPatch,
  conflict_notice_from_envelope,
}
use newell_ai.Artifacts.Sync.Respond.{
  patch_envelope, mark_artifact_auth_blocked, dequeue_artifact, dead_letter_artifact,
  conflict_and_remove, retry_or_dead, auth_refused, without_bytes,
}

-- The artifact waits in the queue, or a dead letter or a conflict notice for it is there.
abbrev pub is_kept : Text → Text → ArtifactDb → Bool
is_kept j client_id db =
    holds artifact_key j db.queue
    || holds artifact_dead_key j db.dead
    || holds conflict_key client_id db.conflicts

module _ (j client_id : Text) (db : ArtifactDb) (h : is_kept j client_id db ≡ true) where
  pub set_artifact_status-kept :
      (patch : StatusPatch) → is_kept j client_id (set_artifact_status patch db) ≡ true
  unfolding set_artifact_status
  set_artifact_status-kept patch = h

  pub patch_envelope-kept :
      (id : Text) (patch : ArtifactQueueEnvelope → ArtifactQueueEnvelope)
      → is_kept j client_id (patch_envelope id patch db) ≡ true
  unfolding patch_envelope
  patch_envelope-kept id patch = elim (Option-cases (get artifact_key id db.queue)) [
    | inl absent ↦ rw (absent, patch_envelope) h
    | inr (e, found) ↦
        rw (found, patch_envelope) (ground (arith, holds-put artifact_key j (patch e) db.queue))
  ]

  module _ (clock : ℕ) (item : ArtifactQueueEnvelope)
      (same : item.queue_id ≡ j → item.client_artifact_id ≡ client_id) where
    pub dead_letter_artifact-kept :
        (reason : Text) → is_kept j client_id (dead_letter_artifact clock item reason db) ≡ true
    unfolding dead_letter_artifact set_artifact_status
    dead_letter_artifact-kept reason =
        let letter : ArtifactDeadLetter = record {
          envelope = without_bytes item;
          reason = reason;
          dead_at = clock;
        } in
        ground (
          arith,
          get-delete artifact_key j item.queue_id db.queue,
          get-put artifact_dead_key j letter db.dead,
        )

    conflict_and_remove-kept :
        (reason : Text) → is_kept j client_id (conflict_and_remove clock item reason db) ≡ true
    unfolding conflict_and_remove set_artifact_status
    conflict_and_remove-kept reason =
        let notice = conflict_notice_from_envelope item reason clock in
        ground (
          arith,
          get-delete artifact_key j item.queue_id db.queue,
          get-put conflict_key client_id notice db.conflicts,
          same_key_iff j item.queue_id,
          same_key_iff client_id item.client_artifact_id,
          same,
        )

    pub retry_or_dead-kept :
        (reason : Text) (now : ℕ)
        → is_kept j client_id (retry_or_dead clock item reason now db).1 ≡ true
    unfolding retry_or_dead
    retry_or_dead-kept reason now =
        elim (Bool-cases (leb artifact_max_attempts (item.attempts + 1))) [
          | inl spent ↦ rw (spent, retry_or_dead) (dead_letter_artifact-kept reason)
          | inr left ↦
              rw (left, retry_or_dead) (unfold set_artifact_status in patch_envelope-kept _ _)
        ]

    pub auth_refused-kept :
        (status now : ℕ) (r : ArtifactSyncOutcome × ArtifactDb)
        → auth_refused clock item status now db ≡ some r
        → is_kept j client_id r.1 ≡ true
    unfolding auth_refused mark_artifact_auth_blocked set_artifact_status
    auth_refused-kept status now r e = ground (
      arith,
      patch_envelope-kept item.queue_id block,
      conflict_and_remove-kept (codes "checksum_conflict"),
      dead_letter_artifact-kept (codes "http_" ++ decimal status),
      retry_or_dead-kept (codes "http_" ++ decimal status) now,
    )

    pub dequeue_artifact-kept :
        (item.queue_id ≡ j → ⊥) → is_kept j client_id (dequeue_artifact item.queue_id db) ≡ true
    unfolding dequeue_artifact
    dequeue_artifact-kept other = ground (
      arith,
      get-delete artifact_key j item.queue_id db.queue,
      same_key_iff j item.queue_id,
      other,
    )

pub hold_artifacts_for_token-kept :
    (j client_id : Text) (db : ArtifactDb)
    → is_kept j client_id db ≡ true
    → is_kept j client_id (hold_artifacts_for_token db).db ≡ true
unfolding hold_artifacts_for_token hold_artifact_auth_blocked rewrite_where set_artifact_status
hold_artifacts_for_token-kept j client_id db h = ground (
  arith,
  holds-put_all artifact_key j (map block (filter (λ e. is_pending e || is_in_flight e) db.queue))
      db.queue,
)

pub selected-kept :
    (j : Text) (now : ℕ) (q : List ArtifactQueueEnvelope)
    → holds artifact_key j q ≡ true
    → holds artifact_key j (select_due_artifact now q).1 ≡ true
unfolding select_due_artifact
selected-kept j now q h =
    let reverted = holds-put_all artifact_key j (map pend (filter is_in_flight q)) q h in
    elim (Option-cases (first_due now (map revert_artifact q))) [
      | inl idle ↦ rw (idle, select_due_artifact) reverted
      | inr (e, found) ↦
          rw (found, select_due_artifact) (holds-put artifact_key j (start_transfer e) _ reverted)
    ]
