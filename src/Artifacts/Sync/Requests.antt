-- ===== src/Artifacts/Sync/Requests.antt =====
-- What `syncArtifactOnce` sends.
use newell_ai.Common.{
  ℕ, Text, strip_slash, Option, none, some, true, false, List, [], ◌∷◌, ◌++◌, ◌≡◌, refl, ◌⊎◌, inl,
  inr, Option-cases, Bool-cases,
}
use newell_ai.Token.{TokenValidation, valid, invalid, validate_capture_token}
use newell_ai.Token.Laws.{IsPrintable, validate_capture_token_iff}
use newell_ai.Artifacts.Types.{ArtifactQueueEnvelope, ArtifactDb}
use newell_ai.Artifacts.Queue.{has_bytes}
use newell_ai.Artifacts.Sync.Select.{select_due_artifact}
use newell_ai.Artifacts.Sync.Respond.{patch_envelope, auth_refused, is_ok}
use newell_ai.Artifacts.Sync.Safety.{auth_refused-none}
use newell_ai.Artifacts.Sync.Once.{
  ArtifactSyncConfig, ArtifactHttpRequest, ArtifactFetchResult, responded, thrown, AcceptBody,
  parsed, unreadable, ArtifactSyncRun, post_request, put_request, hold_artifacts_for_token,
  send_content, note_artifact_id, finish_metadata, transfer, sync_selected, sync_checked,
  sync_artifact_once,
}

-- The requests of one transfer, in their order.
pub data IsTrace (fetch : ArtifactHttpRequest → ArtifactFetchResult) (config : ArtifactSyncConfig)
    (item : ArtifactQueueEnvelope) : List ArtifactHttpRequest → Type 0 where
  -- The metadata are known to the server, and there are no bytes.
  unsent :
      (id : Text)
      → item.artifact_id ≡ some id
      → has_bytes item.bytes ≡ false
      → IsTrace fetch config item []
  posted : item.artifact_id ≡ none → IsTrace fetch config item (post_request config item ∷ [])
  put_alone :
      (id : Text)
      → item.artifact_id ≡ some id
      → has_bytes item.bytes ≡ true
      → IsTrace fetch config item (put_request config item (some id) ∷ [])
  -- The bytes go to the id that the answer to the metadata has.
  posted_and_put :
      (id : Option Text) (status : ℕ)
      → item.artifact_id ≡ none
      → has_bytes item.bytes ≡ true
      → fetch (post_request config item) ≡ responded status (parsed id)
      → is_ok status ≡ true
      → IsTrace fetch config item (post_request config item ∷ put_request config item id ∷ [])

module _ (fetch : ArtifactHttpRequest → ArtifactFetchResult) (now clock : ℕ)
    (others : ArtifactHttpRequest → ArtifactDb → ArtifactDb) where
  module _ (config : ArtifactSyncConfig) (item : ArtifactQueueEnvelope) where
    -- The bytes are sent behind what was sent before, or nothing is.
    send_content-sent :
        (id : Option Text) (db : ArtifactDb) (sent : List ArtifactHttpRequest)
        → let run = send_content fetch now clock others config item id db sent in
          ((has_bytes item.bytes ≡ true) × (run.sent ≡ sent ++ put_request config item id ∷ []))
          ⊎ ((has_bytes item.bytes ≡ false) × (run.sent ≡ sent))
    unfolding send_content
    send_content-sent id db sent = elim (Bool-cases (has_bytes item.bytes)) [
      | inl filled ↦ inl (filled, rw (filled, send_content) refl)
      | inr empty ↦ inr (empty, rw (empty, send_content) refl)
    ]

    accepted-IsTrace :
        (status : ℕ) (body : AcceptBody) (db : ArtifactDb)
        → item.artifact_id ≡ none
        → fetch (post_request config item) ≡ responded status body
        → is_ok status ≡ true
        → IsTrace fetch config item
            (note_artifact_id fetch now clock others config item body db
              (post_request config item ∷ [])).sent
    unfolding note_artifact_id
    accepted-IsTrace status (unreadable e) db unknown said ok = posted unknown
    accepted-IsTrace status (parsed id) db unknown said ok =
        elim (send_content-sent id
          (patch_envelope item.queue_id (λ e. record e { artifact_id = id }) db)
          (post_request config item ∷ [])) [
            | inl (filled, e) ↦ rw e (posted_and_put id status unknown filled said ok)
            | inr (empty, e) ↦ rw e (posted unknown)
          ]

    posted-IsTrace :
        (answer : ArtifactFetchResult) (db : ArtifactDb)
        → item.artifact_id ≡ none
        → fetch (post_request config item) ≡ answer
        → IsTrace fetch config item
            (finish_metadata fetch now clock others config item answer db
              (post_request config item ∷ [])).sent
    unfolding finish_metadata
    posted-IsTrace (thrown e) db unknown said = posted unknown
    posted-IsTrace (responded status body) db unknown said =
        elim (Option-cases (auth_refused clock item status now db)) [
          | inl go_on ↦
              rw (go_on, finish_metadata)
                (accepted-IsTrace status body db unknown said
                  (auth_refused-none clock item status now db go_on))
          | inr (r, early) ↦ rw (early, finish_metadata) (posted unknown)
        ]

    transfer-IsTrace :
        (db : ArtifactDb)
        → IsTrace fetch config item (transfer fetch now clock others config item db).sent
    unfolding transfer
    transfer-IsTrace db = from (item.artifact_id) refl
      where
        from :
            (o : Option Text)
            → item.artifact_id ≡ o
            → IsTrace fetch config item
                (elim o as (λ _. ArtifactSyncRun) [
                  | some id ↦ send_content fetch now clock others config item (some id) db []
                  | none ↦
                      let request = post_request config item in
                      finish_metadata fetch now clock others config item
                        (fetch request)
                        (others request db)
                        (request ∷ [])
                ]).sent
        from none unknown =
            let request = post_request config item in
            posted-IsTrace (fetch request) (others request db) unknown refl
        from (some id) known = elim (send_content-sent (some id) db []) [
          | inl (filled, e) ↦ rw e (put_alone id known filled)
          | inr (empty, e) ↦ rw e (unsent id known empty)
        ]

  -- What was sent is the trace of a transfer of the selected record, with a printable token.
  abbrev pub IsLawful : ArtifactDb → ArtifactSyncConfig → List ArtifactHttpRequest → Type 0
  IsLawful db config sent =
      (token : Text) × (item : ArtifactQueueEnvelope) × IsPrintable token
      × ((select_due_artifact now db.queue).0 ≡ some item)
      × IsTrace fetch (record { base_url = strip_slash config.base_url; token = token }) item sent

  sync_selected-IsLawful :
      (config : ArtifactSyncConfig) (item : Option ArtifactQueueEnvelope) (db : ArtifactDb)
      → let sent = (sync_selected fetch now clock others config item db).sent in
        (sent ≡ []) ⊎ ((e : ArtifactQueueEnvelope) × (item ≡ some e) × IsTrace fetch config e sent)
  unfolding sync_selected
  sync_selected-IsLawful config none db = inl refl
  sync_selected-IsLawful config (some e) db = inr (e, refl, transfer-IsTrace config e db)

  checked-IsLawful :
      (v : TokenValidation) (config : ArtifactSyncConfig) (db : ArtifactDb)
      → validate_capture_token config.token ≡ v
      → let sent = (sync_checked fetch now clock others v config db).sent in
        (sent ≡ []) ⊎ IsLawful db config sent
  unfolding sync_checked hold_artifacts_for_token
  checked-IsLawful (invalid message) config db said = inl refl
  checked-IsLawful (valid token) config db said =
      elim (sync_selected-IsLawful
        (record { base_url = strip_slash config.base_url; token = token })
        (select_due_artifact now db.queue).0
        (record db { queue = (select_due_artifact now db.queue).1 })) [
          | inl nothing_sent ↦ inl nothing_sent
          | inr (e, found, trace) ↦
              inr
                (token, e, ((validate_capture_token_iff config.token token).0 said).2, found, trace)
        ]

  -- A sync sends nothing, or the requests of one transfer of the selected record with a printable
  -- bearer token: the metadata only if the server's id of the artifact is not stored, and the
  -- bytes only if there are some, under the stored id or behind a successful answer to the
  -- metadata under the id that the answer has.
  pub sync_artifact_once-IsLawful :
      (config : ArtifactSyncConfig) (db : ArtifactDb)
      → let sent = (sync_artifact_once fetch now clock others db config).sent in
        (sent ≡ []) ⊎ IsLawful db config sent
  unfolding sync_artifact_once
  sync_artifact_once-IsLawful config db =
      checked-IsLawful (validate_capture_token config.token) config db refl
