-- ===== src/Worker/Artifacts/Safety.antt =====
-- Stored bytes can be read, and what is read is what the row says.
use newell_ai.Common.{
  ℕ, Text, text_eq, text_eq_iff, Option, none, some, Bool, true, false, not, ◌&&◌, List, [], ◌∷◌,
  length, ◌==◌, ==_iff, ◌≡◌, refl, sym, ap, subst, ◌∙◌, arith, inl, inr, Bool-cases, if◌then◌else◌,
  ltb,
}
use newell_ai.Common.Keys.{text_order}
use newell_ai.Worker.Db.{ArtifactRow, WorkerDb}
use newell_ai.Worker.Artifacts.{
  ErrorCode, internal_error, Outcome, returned, thrown, is_allowed_image_mime, differ, is_stored,
  find_artifact, update_artifact, FinalizeInput, finalized, finalize_artifact_stored, reread,
}
use newell_ai.Worker.Artifacts.Content.{
  StoredObject, ObjectStorage, object_key_for_artifact, header_mime, ContentResponse, answered,
  Result, size_differs, confirm, write_content, put_checked, handle_put_artifact_content,
  read_object, read_located, handle_get_artifact_content,
}

find_artifact-update :
    (id : Text) (change : ArtifactRow → ArtifactRow) (t : List ArtifactRow) (r : ArtifactRow)
    → ((x : ArtifactRow) → (change x).artifact_id ≡ x.artifact_id)
    → find_artifact id t ≡ some r
    → find_artifact id (update_artifact id change t) ≡ some (change r)
unfolding find_artifact update_artifact
find_artifact-update id change [] r same h = cc
find_artifact-update id change (x ∷ t) r same h =
    ground (arith, find_artifact-update id change t r same, same x)

finalize_artifact_stored_lem :
    (db : WorkerDb) (input : FinalizeInput) (existing : ArtifactRow)
    → find_artifact input.artifact_id db.artifacts ≡ some existing
    → is_stored existing.capture_status ≡ false
    → finalize_artifact_stored db input ≡ (
      returned (finalized input existing),
      record db { artifacts = update_artifact input.artifact_id (finalized input) db.artifacts },
    )
unfolding finalize_artifact_stored
finalize_artifact_stored_lem db input existing found open_row =
    rw (found, finalize_artifact_stored)
      (rw open_row (
        ap
          (λ (o : Option ArtifactRow). (
            reread o,
            record db {
              artifacts = update_artifact input.artifact_id (finalized input) db.artifacts;
            },
          ))
          (find_artifact-update input.artifact_id (finalized input) db.artifacts existing
            (λ x. refl) found)))

-- Two guards that fail with the same result.
both_hold :
    {A B C : Type 0} (a b : Bool) (e : ErrorCode) (x z : Outcome A × B × C) (response : A)
    → x.0 ≡ thrown e
    → (if not a then x else if not b then x else z).0 ≡ returned response
    → (a ≡ true) × (b ≡ true) × ((if not a then x else if not b then x else z) ≡ z)
both_hold true true e x z response bad h = (refl, refl, refl)
both_hold true false e x z response bad h = cc
both_hold false b e x z response bad h = cc

-- What a stored row says is read back.
stored_row-read :
    {S : Type 0} (storage : ObjectStorage S) (sha256 : List ℕ → Text) (max_bytes : ℕ)
    (backend now : Text) (db : WorkerDb) (store : S) (id : Text) (r : ArtifactRow) (key sum : Text)
    (o : StoredObject)
    → find_artifact id db.artifacts ≡ some r
    → is_stored r.capture_status ≡ true
    → r.storage_location ≡ some key
    → r.checksum ≡ some sum
    → storage.get_object store key ≡ returned (some o)
    → sha256 o.bytes ≡ sum
    → handle_get_artifact_content storage sha256 max_bytes backend now db store id ≡ returned o
unfolding handle_get_artifact_content read_located read_object
stored_row-read storage sha256 max_bytes backend now db store id r key sum o found st loc ck here
      same =
    ground (arith, found, st, loc, ck, here, same, text_eq_iff (sha256 o.bytes) sum)

module _ {S : Type 0} (storage : ObjectStorage S) (sha256 : List ℕ → Text) (max_bytes : ℕ)
    (backend now : Text) where
  -- The object is read back, with the checksum of the bytes.
  pub record IsReadable (db : WorkerDb) (store : S) (id : Text) (buf : List ℕ) : Type 0 where
    pub object : StoredObject
    pub read :
        handle_get_artifact_content storage sha256 max_bytes backend now db store id
        ≡ returned object
    pub checksum : sha256 object.bytes ≡ sha256 buf
    pub size : object.byte_size ≡ length buf

  confirm-IsReadable :
      (db : WorkerDb) (store : S) (id mime : Text) (buf : List ℕ) (existing : ArtifactRow)
      (read : Outcome (Option StoredObject)) (response : ContentResponse)
      → find_artifact id db.artifacts ≡ some existing
      → is_stored existing.capture_status ≡ false
      → storage.get_object store (object_key_for_artifact id (sha256 buf)) ≡ read
      → let r = confirm storage sha256 max_bytes backend now db store id mime buf read in
        r.0 ≡ returned response → IsReadable r.1 r.2 id buf
  unfolding confirm
  confirm-IsReadable db store id mime buf existing (thrown e) response found open_row here h = cc
  confirm-IsReadable db store id mime buf existing (returned none) response found open_row here h =
      cc
  confirm-IsReadable db store id mime buf existing (returned (some o)) response found open_row here
        h =
      let key = object_key_for_artifact id (sha256 buf) in
      let input : FinalizeInput = record {
        artifact_id = id;
        checksum = sha256 buf;
        byte_size = length buf;
        storage_backend = backend;
        storage_location = key;
        mime_type = mime;
      } in
      let done : Outcome ArtifactRow × WorkerDb → Result storage sha256 max_bytes backend now =
        λ f. (answered f.0 now, f.1, store) in
      let after = record db { artifacts = update_artifact id (finalized input) db.artifacts } in
      let (size, sum, same) =
        both_hold {A = ContentResponse} {B = WorkerDb} {C = S} (o.byte_size == length buf)
          (text_eq (sha256 o.bytes) (sha256 buf)) internal_error (thrown internal_error, db, store)
          (done (finalize_artifact_stored db input)) response refl h in
      let equal = (text_eq_iff _ _).0 sum in
      subst (λ (x : Result storage sha256 max_bytes backend now). IsReadable x.1 x.2 id buf)
        (sym (same ∙ ap done (finalize_artifact_stored_lem db input existing found open_row)))
        (record {
          object = o;
          read =
              stored_row-read storage sha256 max_bytes backend now after store id
                (finalized input existing) key (sha256 buf) o
                (find_artifact-update id (finalized input) db.artifacts existing (λ x. refl) found)
                refl refl refl here equal;
          checksum = equal;
          size = (==_iff _ _).0 size;
        })

  write_content-IsReadable :
      (db : WorkerDb) (store : S) (id mime : Text) (buf : List ℕ) (existing : ArtifactRow)
      (response : ContentResponse)
      → find_artifact id db.artifacts ≡ some existing
      → is_stored existing.capture_status ≡ false
      → let r = write_content storage sha256 max_bytes backend now db store id mime buf in
        r.0 ≡ returned response → IsReadable r.1 r.2 id buf
  unfolding write_content
  write_content-IsReadable db store id mime buf existing response found open_row =
      let put_there = storage.put_object store (object_key_for_artifact id (sha256 buf)) buf mime in
      from (put_there.0) (put_there.1)
    where
      from :
          (ok : Bool) (store' : S)
          → let r =
              if ok
              then confirm storage sha256 max_bytes backend now db store' id mime buf
                  (storage.get_object store' (object_key_for_artifact id (sha256 buf)))
              else (thrown internal_error, db, store') in
            r.0 ≡ returned response → IsReadable r.1 r.2 id buf
      from true store' h =
          confirm-IsReadable db store' id mime buf existing _ response found open_row refl h
      from false store' h = cc

  put_checked-IsReadable :
      (db : WorkerDb) (store : S) (id mime : Text) (buf : List ℕ) (existing : ArtifactRow)
      (response : ContentResponse)
      → find_artifact id db.artifacts ≡ some existing
      → is_stored existing.capture_status ≡ false
      → let r = put_checked storage sha256 max_bytes backend now db store id existing mime buf in
        r.0 ≡ returned response → IsReadable r.1 r.2 id buf
  unfolding put_checked
  put_checked-IsReadable db store id mime buf existing response found open_row =
      rw open_row (elim (Bool-cases (differ existing.checksum (some (sha256 buf)))) [
        | inl other ↦ rw other (λ h. cc)
        | inr same ↦ rw same (elim (Bool-cases (size_differs existing.byte_size (length buf))) [
          | inl other_size ↦ rw other_size (λ h. cc)
          | inr same_size ↦
              rw same_size
                (write_content-IsReadable db store id mime buf existing response found open_row)
        ])
      ])

  -- When a `PUT` of an artifact that is not yet stored succeeds, then at once a `GET` of its
  -- content succeeds too: it returns an object of the size and with the checksum of the bytes that
  -- were sent, whatever storage stands behind it.
  pub handle_put_artifact_content-IsReadable :
      (db : WorkerDb) (store : S) (id : Text) (header : Option Text) (buf : List ℕ)
      (existing : ArtifactRow) (response : ContentResponse)
      → find_artifact id db.artifacts ≡ some existing
      → is_stored existing.capture_status ≡ false
      → let r =
          handle_put_artifact_content storage sha256 max_bytes backend now db store id header buf in
        r.0 ≡ returned response → IsReadable r.1 r.2 id buf
  unfolding handle_put_artifact_content
  handle_put_artifact_content-IsReadable db store id header buf existing response found open_row =
      rw (found, handle_put_artifact_content)
        (let mime = header_mime header existing.mime_type in
          let effective = if is_allowed_image_mime mime then mime else existing.mime_type in
          elim (Bool-cases (ltb max_bytes (length buf))) [
            | inl large ↦ rw large (λ h. cc)
            | inr small ↦
                rw small
                  (elim (Bool-cases (
                    not (is_allowed_image_mime mime)
                    && not (is_allowed_image_mime existing.mime_type))) [
                      | inl bad ↦ rw bad (λ h. cc)
                      | inr fine ↦ rw fine (elim (Bool-cases (is_allowed_image_mime effective)) [
                        | inr bad ↦ rw bad (λ h. cc)
                        | inl good ↦ rw good (
                            put_checked-IsReadable db store id effective buf existing response found
                              open_row)
                      ])
                    ])
          ])
