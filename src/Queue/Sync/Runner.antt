-- ===== src/Queue/Sync/Runner.antt =====
-- `run` of `createSyncRunner`, apps/extension/src/queue/sync.ts. The rounds of the `for (;;)` are
-- counted by fuel; `none` means that the fuel ran out. Time, server and other handlers are
-- functions of the round.
use newell_ai.Common.{
  ℕ, zero, suc, ◌+◌, Text, Option, none, some, Bool, true, ◌&&◌, ◌||◌, ltb, ◌==◌, if◌then◌else◌,
  Ordering,
}
use newell_ai.Queue.Types.{SyncOutcome}
use newell_ai.Queue.Db.{QueueDb}
use newell_ai.Queue.Sync.Once.{
  SyncConfig, HttpRequest, FetchResult, no_outcome, hold_for_token, sync_once,
}

pub data SyncConfigLoad : Type 0 where
  ready : SyncConfig → SyncConfigLoad
  missing : SyncConfigLoad
  invalid_token : SyncConfigLoad

-- The `+=` of the loop.
abbrev pub add_outcome : SyncOutcome → SyncOutcome → SyncOutcome
add_outcome total result = record {
  delivered = total.delivered + result.delivered;
  retried = total.retried + result.retried;
  dead_lettered = total.dead_lettered + result.dead_lettered;
  auth_blocked = total.auth_blocked + result.auth_blocked;
  idle = total.idle && result.idle;
}

-- The two `break` conditions.
abbrev pub stops : SyncOutcome → Bool
stops result =
    (result.idle || result.delivered == 0 || ltb 0 result.retried) || ltb 0 result.auth_blocked

module _ (locale_compare : Text → Text → Ordering) (fetch : ℕ → HttpRequest → FetchResult)
    (now : ℕ → ℕ) (others : ℕ → QueueDb → QueueDb) where
  unfoldable pub drain : ℕ → ℕ → SyncConfig → QueueDb → SyncOutcome → Option (SyncOutcome × QueueDb)
  drain zero round config db total = none
  drain (suc fuel) round config db total =
      let result = sync_once locale_compare (fetch round) (now round) (others round) db config in
      let total' = add_outcome total result.outcome in
      let more = drain fuel (suc round) config result.db total' in
      if stops result.outcome then some (total', result.db) else more

  -- `run`
  unfoldable pub run : ℕ → SyncConfigLoad → QueueDb → Option (SyncOutcome × QueueDb)
  unfolding drain hold_for_token
  run fuel missing db = some (no_outcome true, db)
  run fuel invalid_token db = let result = hold_for_token db in some (result.outcome, result.db)
  run fuel (ready config) db = drain fuel 0 config db (no_outcome true)
