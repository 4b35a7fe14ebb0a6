-- ===== src/Artifacts/Sync/Safety.antt =====
-- No artifact is lost in a sync.
use newell_ai.Common.{
  ℕ, Text, codes, text_eq, text_eq_iff, Option, none, some, true, List, [], ◌∷◌, ◌++◌, ◌≡◌, refl,
  sym, ap, ◌∙◌, arith, ◌⊎◌, inl, inr, Any, All-map_imp, Option-cases, Bool-cases,
}
use newell_ai.Common.Keys.{text_order}
use newell_ai.Idb.{get}
use newell_ai.Idb.Same.{get_self}
use newell_ai.Token.{TokenValidation, valid, invalid, validate_capture_token}
use newell_ai.Artifacts.Types.{ArtifactQueueEnvelope, ArtifactDb, artifact_key}
use newell_ai.Artifacts.Queue.{has_bytes, set_artifact_status}
use newell_ai.Artifacts.Sync.Respond.{auth_refused, is_ok}
use newell_ai.Artifacts.Sync.Once.{
  ArtifactSyncConfig, ArtifactHttpRequest, put_content, ArtifactFetchResult, responded, thrown,
  AcceptBody, parsed, unreadable, ArtifactSyncRun, finish, bytes_of, id_text, post_request,
  put_request, wait_for_bytes, finish_content, send_content, note_artifact_id, finish_metadata,
  transfer, sync_selected, sync_checked, sync_artifact_once,
}
use newell_ai.Artifacts.Sync.Again.{IsArtifactOrdered}
use newell_ai.Artifacts.Sync.Kept.{
  hold_artifacts_for_token-kept, selected-kept, is_kept, patch_envelope-kept, retry_or_dead-kept,
  auth_refused-kept, dequeue_artifact-kept,
}
use newell_ai.Artifacts.Sound.Sync.{select_due_artifact-All}

-- The server answered with a success to a `PUT` that the run sent and that held these bytes.
pub record IsAcknowledged (fetch : ArtifactHttpRequest → ArtifactFetchResult)
    (bytes : Option (List ℕ)) (sent : List ArtifactHttpRequest) : Type 0 where
  pub filled : has_bytes bytes ≡ true
  pub url : Text
  pub authorization : Text
  pub content_type : Text
  pub was_sent : Any (λ r. r ≡ put_content url authorization content_type (bytes_of bytes)) sent
  pub status : ℕ
  pub body : AcceptBody
  pub answer :
      fetch (put_content url authorization content_type (bytes_of bytes)) ≡ responded status body
  pub ok : is_ok status ≡ true

pub auth_refused-none :
    (clock : ℕ) (item : ArtifactQueueEnvelope) (status now : ℕ) (db : ArtifactDb)
    → auth_refused clock item status now db ≡ none
    → is_ok status ≡ true
unfolding auth_refused
auth_refused-none clock item status now db h = ground arith

last_member : {A : Type 0} (x : A) (xs : List A) → Any (λ r. r ≡ x) (xs ++ x ∷ [])
last_member x [] = inl refl
last_member x (y ∷ xs) = inr (last_member x xs)

module _ (fetch : ArtifactHttpRequest → ArtifactFetchResult) (now clock : ℕ)
    (others : ArtifactHttpRequest → ArtifactDb → ArtifactDb) (j client_id : Text)
    (bytes : Option (List ℕ))
    (keep : (r : ArtifactHttpRequest) (db : ArtifactDb)
      → is_kept j client_id db ≡ true
      → is_kept j client_id (others r db) ≡ true) where
  -- The artifact is kept, or its bytes were acknowledged.
  abbrev IsSafe : ArtifactSyncRun → Type 0
  IsSafe run = (is_kept j client_id run.db ≡ true) ⊎ IsAcknowledged fetch bytes run.sent

  -- A record with the artifact's id is the artifact.
  abbrev IsIts : ArtifactQueueEnvelope → Type 0
  IsIts item = item.queue_id ≡ j → (item.client_artifact_id ≡ client_id) × (item.bytes ≡ bytes)

  module _ (config : ArtifactSyncConfig) (item : ArtifactQueueEnvelope) (its : IsIts item) where
    sent_content-IsSafe :
        (id : Option Text) (db : ArtifactDb) (sent : List ArtifactHttpRequest)
        (answer : ArtifactFetchResult)
        → has_bytes item.bytes ≡ true
        → fetch (put_request config item id) ≡ answer
        → is_kept j client_id db ≡ true
        → IsSafe (
            finish
              (finish_content fetch now clock others answer item db)
              (sent ++ put_request config item id ∷ []))
    unfolding finish_content set_artifact_status
    sent_content-IsSafe id db sent (thrown e) filled said h =
        inl (retry_or_dead-kept j client_id db h clock item (λ k. (its k).0) _ now)
    sent_content-IsSafe id db sent (responded status body) filled said h =
        elim (Option-cases (auth_refused clock item status now db)) [
          | inr (r, early) ↦
              rw (early, finish_content)
                (inl (
                  auth_refused-kept j client_id db h clock item (λ k. (its k).0) status now r
                    early))
          | inl ok ↦
              rw (ok, finish_content)
                (elim (Bool-cases (text_eq item.queue_id j)) [
                  | inr other ↦ inl (
                      dequeue_artifact-kept j client_id db h clock item (λ k. (its k).0)
                        (λ e. ground (arith, text_eq_iff item.queue_id j)))
                  | inl mine ↦
                      let same = (its ((text_eq_iff item.queue_id j).0 mine)).1 in
                      inr (record {
                        filled = rw (← same) filled;
                        url =
                            config.base_url
                            ++ codes "/v1/artifacts/"
                            ++ id_text id
                            ++ codes "/content";
                        authorization = codes "Bearer " ++ config.token;
                        content_type = item.mime_type;
                        was_sent = rw (← same) (last_member (put_request config item id) sent);
                        status = status;
                        body = body;
                        answer = rw (← same) said;
                        ok = auth_refused-none clock item status now db ok;
                      })
                ])
        ]

    send_content-IsSafe :
        (id : Option Text) (db : ArtifactDb) (sent : List ArtifactHttpRequest)
        → is_kept j client_id db ≡ true
        → IsSafe (send_content fetch now clock others config item id db sent)
    unfolding send_content wait_for_bytes
    send_content-IsSafe id db sent h = elim (Bool-cases (has_bytes item.bytes)) [
      | inl filled ↦
          rw (filled, send_content)
            (let request = put_request config item id in
              sent_content-IsSafe id (others request db) sent (fetch request) filled refl
                (keep request db h))
      | inr empty ↦
          rw (empty, send_content) (inl (patch_envelope-kept j client_id db h item.queue_id _))
    ]

    note_artifact_id-IsSafe :
        (body : AcceptBody) (db : ArtifactDb) (sent : List ArtifactHttpRequest)
        → is_kept j client_id db ≡ true
        → IsSafe (note_artifact_id fetch now clock others config item body db sent)
    unfolding note_artifact_id
    note_artifact_id-IsSafe (unreadable e) db sent h =
        inl (retry_or_dead-kept j client_id db h clock item (λ k. (its k).0) _ now)
    note_artifact_id-IsSafe (parsed id) db sent h =
        send_content-IsSafe id _ sent (patch_envelope-kept j client_id db h item.queue_id _)

    finish_metadata-IsSafe :
        (answer : ArtifactFetchResult) (db : ArtifactDb) (sent : List ArtifactHttpRequest)
        → is_kept j client_id db ≡ true
        → IsSafe (finish_metadata fetch now clock others config item answer db sent)
    unfolding finish_metadata
    finish_metadata-IsSafe (thrown e) db sent h =
        inl (retry_or_dead-kept j client_id db h clock item (λ k. (its k).0) _ now)
    finish_metadata-IsSafe (responded status body) db sent h =
        elim (Option-cases (auth_refused clock item status now db)) [
          | inl ok ↦ rw (ok, finish_metadata) (note_artifact_id-IsSafe body db sent h)
          | inr (r, early) ↦
              rw (early, finish_metadata)
                (inl (
                  auth_refused-kept j client_id db h clock item (λ k. (its k).0) status now r
                    early))
        ]

    transfer-IsSafe :
        (db : ArtifactDb)
        → is_kept j client_id db ≡ true
        → IsSafe (transfer fetch now clock others config item db)
    unfolding transfer
    transfer-IsSafe db h = elim (Option-cases (item.artifact_id)) [
      | inl unknown ↦
          rw (unknown, transfer)
            (let request = post_request config item in
              finish_metadata-IsSafe (fetch request) (others request db) (request ∷ [])
                (keep request db h))
      | inr (id, known) ↦ rw (known, transfer) (send_content-IsSafe (some id) db [] h)
    ]

  sync_selected-IsSafe :
      (config : ArtifactSyncConfig) (item : Option ArtifactQueueEnvelope) (db : ArtifactDb)
      → ((e : ArtifactQueueEnvelope) → item ≡ some e → IsIts e)
      → is_kept j client_id db ≡ true
      → IsSafe (sync_selected fetch now clock others config item db)
  unfolding sync_selected
  sync_selected-IsSafe config none db its h = inl h
  sync_selected-IsSafe config (some e) db its h = transfer-IsSafe config e (its e refl) db h

same_record :
    (q : List ArtifactQueueEnvelope) (x e : ArtifactQueueEnvelope) (j : Text)
    → get artifact_key x.queue_id q ≡ some x
    → get artifact_key j q ≡ some e
    → x.queue_id ≡ j
    → x ≡ e
same_record q x e j found here same =
    let found' : get artifact_key j q ≡ some x =
      ap (λ k. get artifact_key k q) (sym same) ∙ found in
    cc

-- A sync loses no artifact: the record `e` that waits in the queue under the id `j` is, behind the
-- sync, in the queue or among the dead letters under `j`, or there is a conflict notice for its
-- client id, or its bytes were sent and the server answered with a success. This is so for all
-- answers of the server, all tokens, and all handlers that run meanwhile and keep the artifact.
pub sync_artifact_once-IsSafe :
    (fetch : ArtifactHttpRequest → ArtifactFetchResult) (now clock : ℕ)
    (others : ArtifactHttpRequest → ArtifactDb → ArtifactDb) (db : ArtifactDb)
    (config : ArtifactSyncConfig) (j : Text) (e : ArtifactQueueEnvelope)
    → IsArtifactOrdered db.queue
    → get artifact_key j db.queue ≡ some e
    → ((r : ArtifactHttpRequest) (db' : ArtifactDb)
        → is_kept j e.client_artifact_id db' ≡ true
        → is_kept j e.client_artifact_id (others r db') ≡ true)
    → let run = sync_artifact_once fetch now clock others db config in
      (is_kept j e.client_artifact_id run.db ≡ true) ⊎ IsAcknowledged fetch e.bytes run.sent
unfolding sync_artifact_once
sync_artifact_once-IsSafe fetch now clock others db config j e ordered here keep =
    checked (validate_capture_token config.token)
  where
    checked :
        (v : TokenValidation)
        → let run = sync_checked fetch now clock others v config db in
          (is_kept j e.client_artifact_id run.db ≡ true) ⊎ IsAcknowledged fetch e.bytes run.sent
    checked (invalid message) =
        inl (hold_artifacts_for_token-kept j e.client_artifact_id db (rw here refl))
    checked (valid token) =
        let its =
          (select_due_artifact-All
            (IsIts fetch now clock others j e.client_artifact_id e.bytes keep) now db.queue
            (λ x p. p) (λ x p. p)
            (All-map_imp (λ x. get artifact_key x.queue_id db.queue ≡ some x) _ db.queue
              (λ x found same.
                let mine = same_record db.queue x e j found here same in
                (
                  ap (λ (y : ArtifactQueueEnvelope). y.client_artifact_id) mine,
                  ap (λ (y : ArtifactQueueEnvelope). y.bytes) mine,
                ))
              (get_self artifact_key db.queue ordered))).0 in
        sync_selected-IsSafe fetch now clock others j e.client_artifact_id e.bytes keep _ _ _ its
          (rw (selected-kept j now db.queue (rw here refl)) refl)
