-- ===== src/Worker/Artifacts/Reads.antt =====
-- What reads return, and what a `PUT` does to a row that is stored.
use newell_ai.Common.{
  ℕ, Text, text_eq_iff, Option, none, some, true, not, List, ◌≡◌, refl, arith, Bool-cases, inl, inr,
  if◌then◌else◌,
}
use newell_ai.Worker.Db.{ArtifactRow, WorkerDb}
use newell_ai.Worker.Artifacts.{not_found, Outcome, returned, thrown, is_stored, find_artifact}
use newell_ai.Worker.Artifacts.Content.{
  StoredObject, ObjectStorage, ContentResponse, content_response, put_checked,
  handle_put_artifact_content, read_object, read_located, handle_get_artifact_content,
}

module _ {S : Type 0} (storage : ObjectStorage S) (sha256 : List ℕ → Text) (max_bytes : ℕ)
    (backend now : Text) (db : WorkerDb) (store : S) (id : Text) where
  read_object-checksum :
      (sum : Text) (read : Outcome (Option StoredObject)) (o : StoredObject)
      → read_object storage sha256 max_bytes backend now sum read ≡ returned o
      → (read ≡ returned (some o)) × (sha256 o.bytes ≡ sum)
  unfolding read_object
  read_object-checksum sum (thrown e) o h = cc
  read_object-checksum sum (returned none) o h = cc
  read_object-checksum sum (returned (some x)) o h =
      ground (arith, text_eq_iff (sha256 x.bytes) sum)

  -- The row and the object agree.
  pub record IsIntact (o : StoredObject) : Type 0 where
    pub row : ArtifactRow
    pub location : Text
    pub found : find_artifact id db.artifacts ≡ some row
    pub stored : is_stored row.capture_status ≡ true
    pub located : row.storage_location ≡ some location
    pub object : storage.get_object store location ≡ returned (some o)
    pub checksum : row.checksum ≡ some (sha256 o.bytes)

  located-IsIntact :
      (row : ArtifactRow) (location checksum : Option Text) (o : StoredObject)
      → find_artifact id db.artifacts ≡ some row
      → is_stored row.capture_status ≡ true
      → row.storage_location ≡ location
      → row.checksum ≡ checksum
      → read_located storage sha256 max_bytes backend now store location checksum ≡ returned o
      → IsIntact o
  unfolding read_located
  located-IsIntact row none checksum o found st loc sum h = cc
  located-IsIntact row (some location) none o found st loc sum h = cc
  located-IsIntact row (some location) (some s) o found st loc sum h =
      let (read, same) = read_object-checksum s _ o h in
      record {
        row = row;
        location = location;
        found = found;
        stored = st;
        located = loc;
        object = read;
        checksum = rw same sum;
      }

  -- Content is only returned for a stored row, from the place that the row names, and with the
  -- checksum that the row holds.
  pub handle_get_artifact_content-IsIntact :
      (o : StoredObject)
      → handle_get_artifact_content storage sha256 max_bytes backend now db store id ≡ returned o
      → IsIntact o
  unfolding handle_get_artifact_content
  handle_get_artifact_content-IsIntact o h = from (find_artifact id db.artifacts) refl h
    where
      from :
          (f : Option ArtifactRow)
          → find_artifact id db.artifacts ≡ f
          → elim f as (λ _. Outcome StoredObject) [
            | none ↦ thrown not_found
            | some r ↦
                if not (is_stored r.capture_status)
                then thrown not_found
                else read_located storage sha256 max_bytes backend now store r.storage_location
                    r.checksum
          ]
            ≡ returned o
          → IsIntact o
      from none found h = cc
      from (some r) found h = elim (Bool-cases (is_stored r.capture_status)) [
        | inr open_row ↦ let bad : thrown not_found ≡ returned o = rw open_row at h in cc
        | inl st ↦ located-IsIntact r _ _ o found st refl refl (rw st at h)
      ]

  -- A `PUT` to a stored artifact changes neither the tables nor the storage, whatever it brings;
  -- if it succeeds, it answers with the stored row.
  pub handle_put_artifact_content-stored :
      (header : Option Text) (buf : List ℕ) (existing : ArtifactRow)
      → find_artifact id db.artifacts ≡ some existing
      → is_stored existing.capture_status ≡ true
      → let (answer, db', store') =
          handle_put_artifact_content storage sha256 max_bytes backend now db store id header buf in
        (db' ≡ db)
        × (store' ≡ store)
        × ((response : ContentResponse)
            → answer ≡ returned response
            → response ≡ content_response existing now)
  unfolding handle_put_artifact_content put_checked
  handle_put_artifact_content-stored header buf existing found st = ground (arith, found, st)
