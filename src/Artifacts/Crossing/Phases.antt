-- ===== src/Artifacts/Crossing/Phases.antt =====
-- The phases are those of the sync: one behind the other they are its transfer.
use newell_ai.Common.{
  ℕ, Text, Option, none, some, List, [], ◌∷◌, ◌≡◌, refl, Option-cases, Bool-cases, inl, inr,
}
use newell_ai.Artifacts.Types.{ArtifactDb, ArtifactQueueEnvelope}
use newell_ai.Artifacts.Queue.{has_bytes}
use newell_ai.Artifacts.Sync.Respond.{auth_refused}
use newell_ai.Artifacts.Sync.Once.{
  ArtifactSyncConfig, ArtifactHttpRequest, ArtifactFetchResult, responded, thrown, AcceptBody,
  parsed, unreadable, post_request, put_request, wait_for_bytes, finish_content, send_content,
  note_artifact_id, finish_metadata, transfer,
}
use newell_ai.Artifacts.Crossing.{
  Await, awaits_metadata, awaits_content, Phase, begin_content, begin_transfer, note_id, answered,
}

module _ (fetch : ArtifactHttpRequest → ArtifactFetchResult) (now clock : ℕ)
    (others : ArtifactHttpRequest → ArtifactDb → ArtifactDb) (config : ArtifactSyncConfig) where
  abbrev request_of : Await → ArtifactHttpRequest
  request_of (awaits_metadata item) = post_request config item
  request_of (awaits_content item id) = put_request config item id

  abbrev resumed : Await → ArtifactDb → Phase
  resumed w db = answered now clock w (fetch (request_of w)) (others (request_of w) db)

  -- A sync answers at most two requests.
  abbrev content_done : Option Await → ArtifactDb → ArtifactDb
  content_done none db = db
  content_done (some w) db = (resumed w db).db

  abbrev done : Option Await → ArtifactDb → ArtifactDb
  done none db = db
  done (some w) db = let p = resumed w db in content_done p.next p.db

  send_content-done :
      (item : ArtifactQueueEnvelope) (id : Option Text) (db : ArtifactDb)
      (sent : List ArtifactHttpRequest)
      → let p = begin_content now clock item id db in
        (content_done p.next p.db ≡ (send_content fetch now clock others config item id db sent).db)
        × (done p.next p.db ≡ (send_content fetch now clock others config item id db sent).db)
  unfolding begin_content send_content answered wait_for_bytes finish_content
  send_content-done item id db sent = elim (Bool-cases (has_bytes item.bytes)) [
    | inl there ↦ rw (there, begin_content, send_content, content_done, done) (refl, refl)
    | inr missing ↦ rw (missing, begin_content, send_content, content_done, done) (refl, refl)
  ]

  note_artifact_id-done :
      (item : ArtifactQueueEnvelope) (body : AcceptBody) (db : ArtifactDb)
      (sent : List ArtifactHttpRequest)
      → let p = note_id now clock item body db in
        content_done p.next p.db
        ≡ (note_artifact_id fetch now clock others config item body db sent).db
  unfolding note_id note_artifact_id
  note_artifact_id-done item (unreadable e) db sent = refl
  note_artifact_id-done item (parsed id) db sent = (send_content-done item id _ sent).0

  finish_metadata-done :
      (item : ArtifactQueueEnvelope) (result : ArtifactFetchResult) (db : ArtifactDb)
      (sent : List ArtifactHttpRequest)
      → let p = answered now clock (awaits_metadata item) result db in
        content_done p.next p.db
        ≡ (finish_metadata fetch now clock others config item result db sent).db
  unfolding answered finish_metadata
  finish_metadata-done item (thrown e) db sent = refl
  finish_metadata-done item (responded status body) db sent =
      elim (Option-cases (auth_refused clock item status now db)) [
        | inl ok ↦ rw (ok, answered, finish_metadata) (note_artifact_id-done item body db sent)
        | inr (r, early) ↦ rw (early, answered, finish_metadata, content_done) refl
      ]

  -- A sync of the code is its phases one behind the other, the other handlers between them.
  transfer-done :
      (item : ArtifactQueueEnvelope) (db : ArtifactDb)
      → let p = begin_transfer now clock item db in
        done p.next p.db ≡ (transfer fetch now clock others config item db).db
  unfolding begin_transfer transfer
  transfer-done item db = elim (Option-cases (item.artifact_id)) [
    | inl unknown ↦
        let request = post_request config item in
        rw (unknown, begin_transfer, transfer, done)
          (finish_metadata-done item (fetch request) (others request db) (request ∷ []))
    | inr (id, known) ↦
        rw (known, begin_transfer, transfer) ((send_content-done item (some id) db []).1)
  ]
