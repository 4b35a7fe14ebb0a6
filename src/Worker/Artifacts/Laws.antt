-- ===== src/Worker/Artifacts/Laws.antt =====
-- Creating an artifact: first write wins, and a second request is answered with the first row.
use newell_ai.Common.{Text, Option, none, some, true, false, ◌≡◌, refl, ◌∙◌, arith, if◌then◌else◌}
use newell_ai.Common.Keys.{text_order, pair_order, cmp_refl}
use newell_ai.Idb.{get}
use newell_ai.Idb.Laws.{get-put}
use newell_ai.Contracts.{ArtifactCreateRequest}
use newell_ai.Worker.Db.{ArtifactRow, WorkerDb, artifact_row_key}
use newell_ai.Worker.Artifacts.{
  returned, thrown, conflict_error, ensure_conversation, resolve_turn_id, new_row, differ,
  response_of, create_or_get_artifact,
}

-- The row of an artifact, by its conversation and its client id.
abbrev pub row_of : WorkerDb → ArtifactCreateRequest → Option ArtifactRow
row_of db request =
    get artifact_row_key (request.conversation_id, request.client_artifact_id) db.artifacts

module _ (db : WorkerDb) (request : ArtifactCreateRequest) (artifact_uuid now : Text) where
  create_or_get_artifact-known :
      (row : ArtifactRow)
      → row_of db request ≡ some row
      → let (answer, after) = create_or_get_artifact db request artifact_uuid now in
        (answer ≡ (
          if differ row.checksum request.declared_sha256
          then thrown conflict_error
          else returned (response_of row true now)))
        × (after.artifacts ≡ db.artifacts)
  unfolding create_or_get_artifact ensure_conversation
  create_or_get_artifact-known row h = ground (arith, h)

  create_or_get_artifact-new :
      row_of db request ≡ none
      → let (answer, after) = create_or_get_artifact db request artifact_uuid now in
        (row : ArtifactRow) × (row_of after request ≡ some row)
        × (answer ≡ returned (response_of row false now))
        × (row.checksum ≡ request.declared_sha256)
  unfolding create_or_get_artifact ensure_conversation new_row
  create_or_get_artifact-new h =
      let before = ensure_conversation request.conversation_id request.user_id now db in
      let row =
        new_row request (resolve_turn_id before request.conversation_id request.client_turn_id)
          artifact_uuid now in
      rw (h, create_or_get_artifact)
        (
          row,
          get-put artifact_row_key (request.conversation_id, request.client_artifact_id) row
                db.artifacts
              ∙ rw (cmp_refl ⦃o = pair_order⦄ (request.conversation_id, request.client_artifact_id))
                  refl,
          refl,
          refl,
        )

-- After a first request for an artifact, any later request with its conversation and client id
-- changes no artifact row: it is answered with the row of the first, as a duplicate, unless both
-- declare checksums and these differ, which is a conflict.
pub create_or_get_artifact_again :
    (db : WorkerDb) (request again : ArtifactCreateRequest)
    (artifact_uuid artifact_uuid' now now' : Text)
    → row_of db request ≡ none
    → again.conversation_id ≡ request.conversation_id
    → again.client_artifact_id ≡ request.client_artifact_id
    → let (first, after) = create_or_get_artifact db request artifact_uuid now in
      let (second, after') = create_or_get_artifact after again artifact_uuid' now' in
      (row : ArtifactRow) × (first ≡ returned (response_of row false now))
      × (second ≡ (
          if differ request.declared_sha256 again.declared_sha256
          then thrown conflict_error
          else returned (response_of row true now')))
      × (after'.artifacts ≡ after.artifacts)
create_or_get_artifact_again db request again artifact_uuid artifact_uuid' now now' new same_c
      same_id =
    let (row, found, first, checksum) =
      create_or_get_artifact-new db request artifact_uuid now new in
    let after = (create_or_get_artifact db request artifact_uuid now).1 in
    let (second, kept) =
      create_or_get_artifact-known after again artifact_uuid' now' row
        (rw (same_c, same_id) found) in
    (row, first, rw checksum at second, kept)
