-- ===== src/Artifacts/Sync/Runner.antt =====
-- `createArtifactSyncRunner` of apps/extension/src/artifacts/sync.ts: a call that finds the runner
-- not busy. The call leaves `busy` as it found it when the promise of the sync is returned.
use newell_ai.Common.{ℕ, true, []}
use newell_ai.Artifacts.Types.{ArtifactDb}
use newell_ai.Artifacts.Sync.Respond.{nothing}
use newell_ai.Artifacts.Sync.Once.{
  ArtifactSyncConfig, ArtifactHttpRequest, ArtifactFetchResult, ArtifactSyncRun,
  hold_artifacts_for_token, sync_artifact_once,
}

pub data ArtifactSyncConfigLoad : Type 0 where
  ready : ArtifactSyncConfig → ArtifactSyncConfigLoad
  missing : ArtifactSyncConfigLoad
  invalid_token : ArtifactSyncConfigLoad

module _ (fetch : ArtifactHttpRequest → ArtifactFetchResult) (now clock : ℕ)
    (others : ArtifactHttpRequest → ArtifactDb → ArtifactDb) where
  unfoldable pub run_artifact_sync : ArtifactSyncConfigLoad → ArtifactDb → ArtifactSyncRun
  unfolding hold_artifacts_for_token sync_artifact_once
  run_artifact_sync missing db = record {
    outcome = record nothing { idle = true };
    db = db;
    sent = [];
  }
  run_artifact_sync invalid_token db = hold_artifacts_for_token db
  run_artifact_sync (ready config) db = sync_artifact_once fetch now clock others db config
