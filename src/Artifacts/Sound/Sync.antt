-- ===== src/Artifacts/Sound/Sync.antt =====
-- The transfer of an artifact keeps the queue's records sound.
use newell_ai.Artifacts.Sound.Respond.{
  patch_envelope-IsSound, retry_or_dead-IsSound, delivered-IsSound,
  hold_artifacts_for_token-IsSound, auth_refused-IsSound,
}
use newell_ai.Common.{
  ℕ, Text, Option, none, some, List, [], ◌∷◌, map, filter, ◌≡◌, refl, arith, All, All-filter,
  All-map, Option-cases, Bool-cases, inl, inr,
}
use newell_ai.Common.Keys.{text_order}
use newell_ai.Common.Sorting.{sort-All}
use newell_ai.Idb.Members.{put-All, put_all-All}
use newell_ai.Token.{TokenValidation, valid, invalid}
use newell_ai.Artifacts.Types.{ArtifactQueueEnvelope, ArtifactDb, artifact_key}
use newell_ai.Artifacts.Queue.{has_bytes, is_in_flight, pend}
use newell_ai.Artifacts.Sound.{IsTransferable, IsSound}
use newell_ai.Artifacts.Sync.Select.{
  revert_artifact, is_artifact_due, age_order, first_of, first_due, start_transfer,
  select_due_artifact,
}
use newell_ai.Artifacts.Sync.Respond.{auth_refused}
use newell_ai.Artifacts.Sync.Runner.{
  ArtifactSyncConfigLoad, ready, missing, invalid_token, run_artifact_sync,
}
use newell_ai.Artifacts.Sync.Once.{
  ArtifactSyncConfig, ArtifactHttpRequest, ArtifactFetchResult, responded, thrown, AcceptBody,
  post_request, put_request, parsed, unreadable, wait_for_bytes, finish_content, send_content,
  note_artifact_id, finish_metadata, transfer, sync_selected, sync_checked, sync_artifact_once,
}

pub first_of-All :
    {A : Type 0} (P : A → Type 0) (xs : List A) (x : A) → All P xs → first_of xs ≡ some x → P x
first_of-All P [] x h e = cc
first_of-All P (y ∷ xs) x (hy, hs) e = ground arith

pub first_due-All :
    (P : ArtifactQueueEnvelope → Type 0) (now : ℕ) (all : List ArtifactQueueEnvelope)
    (e : ArtifactQueueEnvelope)
    → All P all
    → first_due now all ≡ some e
    → P e
unfolding first_due
first_due-All P now all e h =
    first_of-All P _ e (sort-All age_order P _ (All-filter P (is_artifact_due now) all h))

-- What selection keeps of a property that does not depend on the state.
pub select_due_artifact-All :
    (P : ArtifactQueueEnvelope → Type 0) (now : ℕ) (q : List ArtifactQueueEnvelope)
    → ((e : ArtifactQueueEnvelope) → P e → P (pend e))
    → ((e : ArtifactQueueEnvelope) → P e → P (start_transfer e))
    → All P q
    → ((e : ArtifactQueueEnvelope) → (select_due_artifact now q).0 ≡ some e → P e)
      × All P (select_due_artifact now q).1
unfolding select_due_artifact
select_due_artifact-All P now q pended started h =
    let reverted =
      put_all-All artifact_key P (map pend (filter is_in_flight q)) q
        (All-map P pend _ pended (All-filter P is_in_flight q h)) h in
    let all = All-map P revert_artifact q (λ e p. ground (arith, pended e p)) h in
    elim (Option-cases (first_due now (map revert_artifact q))) [
      | inl idle ↦ rw (idle, select_due_artifact) ((λ e k. cc), reverted)
      | inr (e, found) ↦
          let here = started e (first_due-All P now _ e all found) in
          rw (found, select_due_artifact)
            ((λ x k. ground arith), put-All artifact_key P (start_transfer e) _ here reverted)
    ]

module _ (fetch : ArtifactHttpRequest → ArtifactFetchResult) (now clock : ℕ)
    (others : ArtifactHttpRequest → ArtifactDb → ArtifactDb)
    (keep : (r : ArtifactHttpRequest) (db : ArtifactDb) → IsSound db → IsSound (others r db))
    (config : ArtifactSyncConfig) (item : ArtifactQueueEnvelope) where
  pub finish_content-IsSound :
      (answer : ArtifactFetchResult) (db : ArtifactDb)
      → IsSound db
      → IsSound (finish_content fetch now clock others answer item db).1
  unfolding finish_content
  finish_content-IsSound (thrown e) db h = retry_or_dead-IsSound db h clock item _ now
  finish_content-IsSound (responded status body) db h =
      elim (Option-cases (auth_refused clock item status now db)) [
        | inl ok ↦
            rw (ok, finish_content)
              (delivered-IsSound db h item.queue_id
                (record { last_error = some none; last_success_at = some (some now) }))
        | inr (r, early) ↦
            rw (early, finish_content) (auth_refused-IsSound db h clock item status now r early)
      ]

  send_content-IsSound :
      (id : Option Text) (db : ArtifactDb) (sent : List ArtifactHttpRequest)
      → IsTransferable item
      → IsSound db
      → IsSound (send_content fetch now clock others config item id db sent).db
  unfolding send_content wait_for_bytes
  send_content-IsSound id db sent fit h = elim (Bool-cases (has_bytes item.bytes)) [
    | inl some_bytes ↦
        rw (some_bytes, send_content)
          (let request = put_request config item id in
            finish_content-IsSound (fetch request) (others request db) (keep request db h))
    | inr no_bytes ↦
        rw (no_bytes, send_content)
          (patch_envelope-IsSound db h item.queue_id _ (λ e p. (fit.0, refl)))
  ]

  note_artifact_id-IsSound :
      (body : AcceptBody) (db : ArtifactDb) (sent : List ArtifactHttpRequest)
      → IsTransferable item
      → IsSound db
      → IsSound (note_artifact_id fetch now clock others config item body db sent).db
  unfolding note_artifact_id
  note_artifact_id-IsSound (unreadable e) db sent fit h =
      retry_or_dead-IsSound db h clock item _ now
  note_artifact_id-IsSound (parsed id) db sent fit h =
      send_content-IsSound id _ sent fit (patch_envelope-IsSound db h item.queue_id _ (λ e p. p))

  finish_metadata-IsSound :
      (answer : ArtifactFetchResult) (db : ArtifactDb) (sent : List ArtifactHttpRequest)
      → IsTransferable item
      → IsSound db
      → IsSound (finish_metadata fetch now clock others config item answer db sent).db
  unfolding finish_metadata
  finish_metadata-IsSound (thrown e) db sent fit h = retry_or_dead-IsSound db h clock item _ now
  finish_metadata-IsSound (responded status body) db sent fit h =
      elim (Option-cases (auth_refused clock item status now db)) [
        | inl ok ↦ rw (ok, finish_metadata) (note_artifact_id-IsSound body db sent fit h)
        | inr (r, early) ↦
            rw (early, finish_metadata) (auth_refused-IsSound db h clock item status now r early)
      ]

  transfer-IsSound :
      (db : ArtifactDb)
      → IsTransferable item
      → IsSound db
      → IsSound (transfer fetch now clock others config item db).db
  unfolding transfer
  transfer-IsSound db fit h = elim (Option-cases (item.artifact_id)) [
    | inl unknown ↦
        rw (unknown, transfer)
          (let request = post_request config item in
            finish_metadata-IsSound (fetch request) (others request db) (request ∷ []) fit
              (keep request db h))
    | inr (id, known) ↦ rw (known, transfer) (send_content-IsSound (some id) db [] fit h)
  ]

module _ (fetch : ArtifactHttpRequest → ArtifactFetchResult) (now clock : ℕ)
    (others : ArtifactHttpRequest → ArtifactDb → ArtifactDb)
    (keep : (r : ArtifactHttpRequest) (db : ArtifactDb) → IsSound db → IsSound (others r db)) where
  sync_selected-IsSound :
      (config : ArtifactSyncConfig) (item : Option ArtifactQueueEnvelope) (db : ArtifactDb)
      → ((e : ArtifactQueueEnvelope) → item ≡ some e → IsTransferable e)
      → IsSound db
      → IsSound (sync_selected fetch now clock others config item db).db
  unfolding sync_selected
  sync_selected-IsSound config none db fit h = h
  sync_selected-IsSound config (some e) db fit h =
      transfer-IsSound fetch now clock others keep config e db (fit e refl) h

  sync_checked-IsSound :
      (v : TokenValidation) (config : ArtifactSyncConfig) (db : ArtifactDb)
      → IsSound db
      → IsSound (sync_checked fetch now clock others v config db).db
  unfolding sync_checked
  sync_checked-IsSound (invalid message) config db h = hold_artifacts_for_token-IsSound db h
  sync_checked-IsSound (valid token) config db h =
      let (fit, kept) =
        select_due_artifact-All IsTransferable now db.queue (λ e p. p) (λ e p. p) h.waiting in
      sync_selected-IsSound _ _ _ fit (record { waiting = kept; emptied = h.emptied })

  run_artifact_sync-IsSound :
      (loaded : ArtifactSyncConfigLoad) (db : ArtifactDb)
      → IsSound db
      → IsSound (run_artifact_sync fetch now clock others loaded db).db
  unfolding run_artifact_sync sync_artifact_once
  run_artifact_sync-IsSound missing db h = h
  run_artifact_sync-IsSound invalid_token db h = hold_artifacts_for_token-IsSound db h
  run_artifact_sync-IsSound (ready config) db h = sync_checked-IsSound _ config db h
