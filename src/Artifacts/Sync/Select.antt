-- ===== src/Artifacts/Sync/Select.antt =====
-- `selectDueArtifact` and `holdArtifactAuthBlocked` of apps/extension/src/artifacts/sync.ts.
use newell_ai.Common.{
  ℕ, Option, none, some, Bool, ◌&&◌, ◌||◌, List, [], ◌∷◌, map, filter, leb, if◌then◌else◌,
}
use newell_ai.Common.Keys.{text_order}
use newell_ai.Common.Sorting.{sort}
use newell_ai.Idb.{put, put_all}
use newell_ai.Artifacts.Types.{ArtifactQueueEnvelope, ArtifactDb, in_flight, artifact_key}
use newell_ai.Artifacts.Queue.{is_pending, is_in_flight, pend, block, rewrite_where}

-- The loop that reverts abandoned transfers changes them in `all` too.
abbrev pub revert_artifact : ArtifactQueueEnvelope → ArtifactQueueEnvelope
revert_artifact e = if is_in_flight e then pend e else e

abbrev pub is_artifact_due : ℕ → ArtifactQueueEnvelope → Bool
is_artifact_due now e = is_pending e && leb e.next_attempt_at now

-- `a.enqueued_at - b.enqueued_at <= 0`
abbrev pub age_order : ArtifactQueueEnvelope → ArtifactQueueEnvelope → Bool
age_order a b = leb a.enqueued_at b.enqueued_at

-- `xs[0]`
abbrev pub first_of : {A : Type 0} → List A → Option A
first_of [] = none
first_of (x ∷ xs) = some x

unfoldable pub first_due : ℕ → List ArtifactQueueEnvelope → Option ArtifactQueueEnvelope
first_due now all = first_of (sort age_order (filter (is_artifact_due now) all))

abbrev pub start_transfer : ArtifactQueueEnvelope → ArtifactQueueEnvelope
start_transfer e = record e { state = in_flight }

-- `selectDueArtifact`: the selected record, and the store `queue` behind the transaction.
unfoldable pub select_due_artifact :
    ℕ → List ArtifactQueueEnvelope → Option ArtifactQueueEnvelope × List ArtifactQueueEnvelope
unfolding first_due
select_due_artifact now queue =
    let reverted = put_all artifact_key (map pend (filter is_in_flight queue)) queue in
    elim (first_due now (map revert_artifact queue)) [
      | none ↦ (none, reverted)
      | some selected ↦
          (some (start_transfer selected), put artifact_key (start_transfer selected) reverted)
    ]

-- `holdArtifactAuthBlocked`
unfoldable pub hold_artifact_auth_blocked : ArtifactDb → ℕ × ArtifactDb
unfolding rewrite_where
hold_artifact_auth_blocked = rewrite_where (λ e. is_pending e || is_in_flight e) block
