-- ===== src/Queue/Sync/Termination.antt =====
-- The runner's loop ends: every round that goes on has dequeued a record.
use newell_ai.Common.{
  ℕ, zero, suc, ◌≤◌, ◌<◌, Text, Option, some, true, false, ◌≡◌, refl, ◌∙◌, arith, List, [], ◌∷◌,
  map, filter, length, inl, inr, Bool-cases, All, All-map, All-map_imp, All-filter, Ordering,
}
use newell_ai.Common.Keys.{text_order}
use newell_ai.Idb.{put_all}
use newell_ai.Token.{TokenValidation, valid, invalid, validate_capture_token}
use newell_ai.Queue.Sync.Once.{
  SyncConfig, HttpRequest, FetchResult, status_of, no_outcome, hold_for_token, upload_request,
  sync_batch, sync_checked, sync_once,
}
use newell_ai.Queue.Sync.Runner.{
  SyncConfigLoad, ready, missing, invalid_token, add_outcome, stops, drain, run,
}
use newell_ai.Idb.Ordered.{put-IsOrdered, delete-IsOrdered, put_all-IsOrdered}
use newell_ai.Idb.Members.{holds, holds-put_all}
use newell_ai.Idb.Sizes.{length-put_all_held, length-delete-le, length-delete_held, holds_self}
use newell_ai.Queue.Types.{QueueEnvelope, SyncOutcome, in_flight}
use newell_ai.Queue.Db.{QueueDb, queue_key}
use newell_ai.Queue.Operations.{
  has_state, to_pending, to_auth_blocked, set_status, hold_pending_as_auth_blocked,
}
use newell_ai.Queue.Sync.Delivery.{retried_copy}
use newell_ai.Queue.Recovery.{IsQueueOrdered}
use newell_ai.Queue.Keeps.{IsStable, select_batch-All}
use newell_ai.Queue.Sync.Select.{select_batch, to_in_flight}
use newell_ai.Queue.Sync.Result.{
  Progress, has_code, transient, apply_item, apply_items, apply_result,
}

module _ (locale_compare : Text → Text → Ordering) (now : ℕ) (q : List QueueEnvelope) where
  abbrev IsHeldIn : List QueueEnvelope → QueueEnvelope → Type 0
  IsHeldIn s e = holds queue_key e.queue_id s ≡ true

  IsHeldIn-IsStable : (s : List QueueEnvelope) → IsStable (IsHeldIn s)
  IsHeldIn-IsStable s = record {
    pending = λ e h. h;
    pending_now = λ e h. h;
    blocked = λ e h. h;
    flying = λ e h. h;
    due = λ e h. h;
  }

  select_batch-IsOrdered : IsQueueOrdered q → IsQueueOrdered (select_batch locale_compare now q).1
  unfolding select_batch
  select_batch-IsOrdered h = put_all-IsOrdered queue_key _ _ (put_all-IsOrdered queue_key _ q h)

  -- The records of the batch are records of the store.
  select_batch-held : All (IsHeldIn q) (select_batch locale_compare now q).0
  select_batch-held =
      (select_batch-All (IsHeldIn q) (IsHeldIn-IsStable q) locale_compare now q
        (holds_self queue_key q)).0

  reverted : List QueueEnvelope
  reverted = put_all queue_key (map to_pending (filter (has_state in_flight) q)) q

  reverted-length : IsQueueOrdered q → length reverted ≡ length q
  unfolding reverted
  reverted-length h = length-put_all_held queue_key _ q h (
      All-map (IsHeldIn q) to_pending _ (λ e k. k)
        (All-filter (IsHeldIn q) (has_state in_flight) q (holds_self queue_key q)))

  batch_held : All (IsHeldIn reverted) (map to_in_flight (select_batch locale_compare now q).0)
  unfolding reverted
  batch_held =
      All-map (IsHeldIn reverted) to_in_flight _ (λ e k. k)
        (All-map_imp (IsHeldIn q) _ _ (λ e k. holds-put_all queue_key e.queue_id _ q k)
          select_batch-held)

  -- Choosing a batch changes states only: the number of records stays.
  pub select_batch-length :
      IsQueueOrdered q → length (select_batch locale_compare now q).1 ≡ length q
  unfolding select_batch reverted
  select_batch-length h =
      length-put_all_held queue_key _ reverted (put_all-IsOrdered queue_key _ q h) batch_held
      ∙ reverted-length h

  select_batch-held_after :
      All (IsHeldIn (select_batch locale_compare now q).1) (select_batch locale_compare now q).0
  unfolding select_batch reverted
  select_batch-held_after =
      All-map_imp (IsHeldIn q) _ _
        (λ e k. holds-put_all queue_key e.queue_id _ _ (holds-put_all queue_key e.queue_id _ q k))
        select_batch-held

module _ (status : Option ℕ) (now : ℕ) where
  apply_item-IsOrdered :
      (e : QueueEnvelope) (p : Progress)
      → IsQueueOrdered p.queue
      → IsQueueOrdered (apply_item status now e p).queue
  unfolding apply_item transient
  apply_item-IsOrdered e p h = ground (
    arith,
    delete-IsOrdered queue_key e.queue_id p.queue h,
    put-IsOrdered queue_key (to_auth_blocked e) p.queue h,
    put-IsOrdered queue_key (retried_copy e now) p.queue h,
  )

  pub apply_items-IsOrdered :
      (batch : List QueueEnvelope) (p : Progress)
      → IsQueueOrdered p.queue
      → IsQueueOrdered (apply_items status now batch p).queue
  unfolding apply_items
  apply_items-IsOrdered [] p h = h
  apply_items-IsOrdered (e ∷ batch) p h =
      apply_items-IsOrdered batch (apply_item status now e p) (apply_item-IsOrdered e p h)

  -- Without status 200 nothing counts as delivered.
  apply_items-undelivered :
      (batch : List QueueEnvelope) (p : Progress)
      → has_code 200 status ≡ false
      → (apply_items status now batch p).outcome.delivered ≡ p.outcome.delivered
  unfolding apply_items apply_item transient
  apply_items-undelivered [] p h = refl
  apply_items-undelivered (e ∷ batch) p h =
      ground (arith, apply_items-undelivered batch (apply_item status now e p) h)

  apply_items-length-le :
      (batch : List QueueEnvelope) (p : Progress)
      → has_code 200 status ≡ true
      → length (apply_items status now batch p).queue ≤ length p.queue
  unfolding apply_items apply_item
  apply_items-length-le [] p h = omega arith
  apply_items-length-le (e ∷ batch) p h = ground (
    arith,
    apply_items-length-le batch (apply_item status now e p) h,
    length-delete-le queue_key e.queue_id p.queue,
  )

  apply_items-length-lt :
      (e : QueueEnvelope) (batch : List QueueEnvelope) (p : Progress)
      → has_code 200 status ≡ true
      → holds queue_key e.queue_id p.queue ≡ true
      → length (apply_items status now (e ∷ batch) p).queue < length p.queue
  unfolding apply_items apply_item
  apply_items-length-lt e batch p h held = ground (
    arith,
    apply_items-length-le batch (apply_item status now e p) h,
    length-delete_held queue_key e.queue_id p.queue held,
  )

abbrev pub quiet : QueueDb → QueueDb
quiet db = db

module _ (locale_compare : Text → Text → Ordering) (fetch : HttpRequest → FetchResult) (now : ℕ)
    (config : SyncConfig) (db : QueueDb) where
  -- The rest of `syncOnce` behind the choice of the batch.
  sync_batch-shrinks :
      (batch : List QueueEnvelope)
      → All (λ e. holds queue_key e.queue_id db.queue ≡ true) batch
      → let r = sync_batch locale_compare fetch now quiet config db batch in
        stops r.outcome ≡ false → length r.db.queue < length db.queue
  unfolding sync_batch apply_result set_status
  sync_batch-shrinks [] held going = cc
  sync_batch-shrinks (e ∷ batch) (here, held) going =
      let request = upload_request config e batch in
      let status = status_of (fetch request) in
      let p : Progress = record { queue = db.queue; dead = db.dead; outcome = no_outcome false } in
      elim (Bool-cases (has_code 200 status)) [
        | inl acknowledged ↦ apply_items-length-lt status now e batch p acknowledged here
        | inr other ↦
            let none_delivered = apply_items-undelivered status now (e ∷ batch) p other in
            absurd (ground arith)
      ]

  sync_batch-IsOrdered :
      (batch : List QueueEnvelope)
      → IsQueueOrdered db.queue
      → IsQueueOrdered (sync_batch locale_compare fetch now quiet config db batch).db.queue
  unfolding sync_batch apply_result set_status
  sync_batch-IsOrdered [] h = h
  sync_batch-IsOrdered (e ∷ batch) h =
      apply_items-IsOrdered (status_of (fetch (upload_request config e batch))) now (e ∷ batch)
        (record { queue = db.queue; dead = db.dead; outcome = no_outcome false }) h

hold_for_token-IsOrdered :
    (db : QueueDb) → IsQueueOrdered db.queue → IsQueueOrdered (hold_for_token db).db.queue
unfolding hold_for_token hold_pending_as_auth_blocked set_status
hold_for_token-IsOrdered db h = put_all-IsOrdered queue_key _ db.queue h

hold_for_token-stops :
    (db : QueueDb)
    → stops (hold_for_token db).outcome ≡ false
    → length (hold_for_token db).db.queue < length db.queue
unfolding hold_for_token hold_pending_as_auth_blocked
hold_for_token-stops db going = ground arith

module _ (locale_compare : Text → Text → Ordering) (fetch : HttpRequest → FetchResult)
    (now : ℕ) where
  sync_checked-shrinks :
      (v : TokenValidation) (config : SyncConfig) (db : QueueDb)
      → IsQueueOrdered db.queue
      → let r = sync_checked locale_compare fetch now quiet v config db in
        IsQueueOrdered r.db.queue × (stops r.outcome ≡ false → length r.db.queue < length db.queue)
  unfolding sync_checked
  sync_checked-shrinks (invalid m) config db h =
      (hold_for_token-IsOrdered db h, hold_for_token-stops db)
  sync_checked-shrinks (valid token) config db h =
      let (batch, queue) = select_batch locale_compare now db.queue in
      let db' : QueueDb = record db { queue = queue } in
      let config' : SyncConfig = record config { token = token } in
      (
        sync_batch-IsOrdered locale_compare fetch now config' db' batch
            (select_batch-IsOrdered locale_compare now db.queue h),
        λ going.
            let less =
              sync_batch-shrinks locale_compare fetch now config' db' batch
                (select_batch-held_after locale_compare now db.queue) going in
            omega (arith, less, select_batch-length locale_compare now db.queue h),
      )

module _ (locale_compare : Text → Text → Ordering) (fetch : ℕ → HttpRequest → FetchResult)
    (now : ℕ → ℕ) where
  pub drain_total :
      (fuel round : ℕ) (config : SyncConfig) (db : QueueDb) (total : SyncOutcome)
      → IsQueueOrdered db.queue
      → length db.queue < fuel
      → (result : SyncOutcome × QueueDb) × (drain locale_compare fetch now
            (λ n. quiet)
            fuel
            round
            config
            db
            total
          ≡ some result)
  unfolding drain sync_once
  drain_total zero round config db total h enough = absurd (omega arith)
  drain_total (suc fuel) round config db total h enough =
      let v = validate_capture_token config.token in
      let r = sync_checked locale_compare (fetch round) (now round) quiet v config db in
      let (ordered, shrinks) =
        sync_checked-shrinks locale_compare (fetch round) (now round) v config db h in
      let total' = add_outcome total r.outcome in
      elim (Bool-cases (stops r.outcome)) [
        | inl stopped ↦ ((total', r.db), rw stopped)
        | inr going ↦
            let less = shrinks going in
            rw going (drain_total fuel (suc round) config r.db total' ordered (omega (arith, less)))
      ]

  -- With no other handler at work, `run` returns: one round more than the queue has records is
  -- enough, whatever the configuration, the clock and the answers of the server are.
  pub run_total :
      (fuel : ℕ) (load : SyncConfigLoad) (db : QueueDb)
      → IsQueueOrdered db.queue
      → length db.queue < fuel
      → (result : SyncOutcome × QueueDb) × (run locale_compare fetch now (λ n. quiet) fuel load db
          ≡ some result)
  unfolding run
  run_total fuel missing db h enough = (_, refl)
  run_total fuel invalid_token db h enough = (_, refl)
  run_total fuel (ready config) db h enough =
      drain_total fuel 0 config db (no_outcome true) h enough
