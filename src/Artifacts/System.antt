-- ===== src/Artifacts/System.antt =====
-- The handlers of apps/extension/src/background.ts that change the artifact queue, in any order.
-- Each commits as a whole; Crossing has the syncs, which do not.
use newell_ai.Common.{ℕ, Text, some, List, ◌≡◌}
use newell_ai.Artifacts.Types.{ArtifactDb, ArtifactEnqueueInput, ArtifactEnqueueResult}
use newell_ai.Artifacts.Queue.{
  enqueue_artifact, attach_artifact_bytes, recover_artifact_in_flight, force_artifact_pending_due,
  requeue_artifact_auth_blocked, set_artifact_status, StatusPatch, dismiss_artifact_conflict,
  clear_artifact_dead_letters,
}
use newell_ai.Artifacts.Sync.Once.{hold_artifacts_for_token}
use newell_ai.Artifacts.Sound.{
  IsSound, enqueue_artifact-IsSound, attach_artifact_bytes-IsSound,
  recover_artifact_in_flight-IsSound, force_artifact_pending_due-IsSound,
  requeue_artifact_auth_blocked-IsSound, set_artifact_status-IsSound,
  dismiss_artifact_conflict-IsSound, clear_artifact_dead_letters-IsSound,
}
use newell_ai.Artifacts.Sound.Respond.{hold_artifacts_for_token-IsSound}

-- The stores behind any number of handlers.
pub data Steps : ArtifactDb → ArtifactDb → Type 0 where
  none_yet : {a : ArtifactDb} → Steps a a
  enqueued :
      {a b : ArtifactDb}
      → Steps a b
      → (input : ArtifactEnqueueInput) (queue_uuid : Text) (now : ℕ)
      → (r : ArtifactEnqueueResult × ArtifactDb) → enqueue_artifact b input queue_uuid now ≡ some r
      → Steps a r.1
  attach :
      {a b : ArtifactDb}
      → Steps a b
      → (conversation_id client_artifact_id : Text) (bytes : List ℕ) (sha : Text) (size now : ℕ)
      → Steps a (attach_artifact_bytes b conversation_id client_artifact_id bytes sha size now).1
  recover : {a b : ArtifactDb} → Steps a b → Steps a (recover_artifact_in_flight b).1
  force : {a b : ArtifactDb} → Steps a b → (now : ℕ) → Steps a (force_artifact_pending_due now b)
  requeue :
      {a b : ArtifactDb} → Steps a b → (now : ℕ) → Steps a (requeue_artifact_auth_blocked now b).1
  update_status :
      {a b : ArtifactDb} → Steps a b → (patch : StatusPatch) → Steps a (set_artifact_status patch b)
  dismiss :
      {a b : ArtifactDb} → Steps a b → (id : Text) → Steps a (dismiss_artifact_conflict b id).1
  clear : {a b : ArtifactDb} → Steps a b → Steps a (clear_artifact_dead_letters b).1
  -- The call of a sync whose token cannot be a header.
  hold : {a b : ArtifactDb} → Steps a b → Steps a (hold_artifacts_for_token b).db

-- Whatever handlers run in whatever order: every record that waits in the artifact queue has used
-- fewer than five attempts and holds the bytes that its byte status promises, and no dead letter
-- holds bytes, if that was so before.
pub Steps-IsSound : {a b : ArtifactDb} → Steps a b → IsSound a → IsSound b
Steps-IsSound none_yet h = h
Steps-IsSound (enqueued s input queue_uuid now r e) h =
    enqueue_artifact-IsSound _ input queue_uuid now r e (Steps-IsSound s h)
Steps-IsSound (attach s c id bytes sha size now) h =
    attach_artifact_bytes-IsSound _ c id bytes sha size now (Steps-IsSound s h)
Steps-IsSound (recover s) h = recover_artifact_in_flight-IsSound _ (Steps-IsSound s h)
Steps-IsSound (force s now) h = force_artifact_pending_due-IsSound _ (Steps-IsSound s h) now
Steps-IsSound (requeue s now) h = requeue_artifact_auth_blocked-IsSound _ (Steps-IsSound s h) now
Steps-IsSound (update_status s patch) h = set_artifact_status-IsSound _ (Steps-IsSound s h) patch
Steps-IsSound (dismiss s id) h = dismiss_artifact_conflict-IsSound _ (Steps-IsSound s h) id
Steps-IsSound (clear s) h = clear_artifact_dead_letters-IsSound _ (Steps-IsSound s h)
Steps-IsSound (hold s) h = hold_artifacts_for_token-IsSound _ (Steps-IsSound s h)
