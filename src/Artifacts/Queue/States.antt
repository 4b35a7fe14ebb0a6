-- ===== src/Artifacts/Queue/States.antt =====
-- The functions of apps/extension/src/artifacts/queue.ts that change the states of records.
use newell_ai.Common.{ℕ, Bool, true, false, ◌||◌, map, filter, length}
use newell_ai.Common.Keys.{text_order, pair_order}
use newell_ai.Idb.{put_all}
use newell_ai.Artifacts.Types.{
  pending, in_flight, auth_blocked, ArtifactQueueEnvelope, ArtifactDb, artifact_key,
}

abbrev pub is_pending : ArtifactQueueEnvelope → Bool
is_pending e = elim e.state [ pending ↦ true | in_flight ↦ false | auth_blocked ↦ false ]

abbrev pub is_in_flight : ArtifactQueueEnvelope → Bool
is_in_flight e = elim e.state [ pending ↦ false | in_flight ↦ true | auth_blocked ↦ false ]

abbrev pub is_auth_blocked : ArtifactQueueEnvelope → Bool
is_auth_blocked e = elim e.state [ pending ↦ false | in_flight ↦ false | auth_blocked ↦ true ]

-- The loops that change the records of a kind in place and put them back, with their count.
unfoldable pub rewrite_where :
    (ArtifactQueueEnvelope → Bool)
    → (ArtifactQueueEnvelope → ArtifactQueueEnvelope)
    → ArtifactDb
    → ℕ × ArtifactDb
rewrite_where p change db =
    let items = filter p db.queue in
    (length items, record db { queue = put_all artifact_key (map change items) db.queue })

abbrev pub pend : ArtifactQueueEnvelope → ArtifactQueueEnvelope
pend e = record e { state = pending }

abbrev pub pend_at : ℕ → ArtifactQueueEnvelope → ArtifactQueueEnvelope
pend_at now e = record e { state = pending; next_attempt_at = now }

abbrev pub block : ArtifactQueueEnvelope → ArtifactQueueEnvelope
block e = record e { state = auth_blocked }

-- `recoverArtifactInFlight`
unfoldable pub recover_artifact_in_flight : ArtifactDb → ℕ × ArtifactDb
recover_artifact_in_flight = rewrite_where is_in_flight pend

-- `forceArtifactPendingDue`
unfoldable pub force_artifact_pending_due : ℕ → ArtifactDb → ArtifactDb
force_artifact_pending_due now db =
    (rewrite_where (λ e. is_pending e || is_auth_blocked e) (pend_at now) db).1

-- `requeueArtifactAuthBlocked`
unfoldable pub requeue_artifact_auth_blocked : ℕ → ArtifactDb → ℕ × ArtifactDb
requeue_artifact_auth_blocked now = rewrite_where is_auth_blocked (pend_at now)
