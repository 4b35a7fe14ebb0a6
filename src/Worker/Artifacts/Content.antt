-- ===== src/Worker/Artifacts/Content.antt =====
-- `handlePutArtifactContent` and `handleGetArtifactContent` of apps/worker/src/routes/v1/artifacts.ts
-- behind the test of the method and of the token, and the interface and the memory store of
-- apps/worker/src/storage/types.ts. SHA-256 in hexadecimal is the parameter `sha256`.
use newell_ai.Common.{
  ℕ, Text, codes, text_eq, trim, Option, none, some, Bool, true, false, not, ◌&&◌, List, [], ◌∷◌,
  ◌++◌, map, take, length, ltb, ◌==◌, if◌then◌else◌,
}
use newell_ai.Common.Keys.{text_order}
use newell_ai.Idb.{put, get}
use newell_ai.Contracts.{ArtifactCaptureStatus}
use newell_ai.Queue.Sync.Sanitize.{to_lower}
use newell_ai.Worker.Db.{ArtifactRow, WorkerDb}
use newell_ai.Worker.Artifacts.{
  not_found, validation_error, conflict_error, integrity_error, internal_error, Outcome, returned,
  thrown, is_allowed_image_mime, differ, is_stored, find_artifact, finalize_artifact_stored,
  mark_artifact_conflict,
}

pub record StoredObject : Type 0 where
  pub bytes : List ℕ
  pub content_type : Text
  pub byte_size : ℕ

-- `put` gives `false` when it throws; `get` can throw too.
pub record ObjectStorage (S : Type 0) : Type 0 where
  pub put_object : S → Text → List ℕ → Text → Bool × S
  pub get_object : S → Text → Outcome (Option StoredObject)

-- The map of `MemoryObjectStorage`.
pub record MemoryObject : Type 0 where
  pub key : Text
  pub bytes : List ℕ
  pub content_type : Text

abbrev pub memory_key : MemoryObject → Text
memory_key o = o.key

abbrev pub to_object : Option MemoryObject → Option StoredObject
to_object none = none
to_object (some o) =
    some (record { bytes = o.bytes; content_type = o.content_type; byte_size = length o.bytes })

-- `MemoryObjectStorage`
abbrev pub memory_object_storage : ObjectStorage (List MemoryObject)
memory_object_storage = record {
  put_object = λ store key bytes content_type. (
    true,
    put memory_key (record { key = key; bytes = bytes; content_type = content_type }) store,
  );
  get_object = λ store key. returned (to_object (get memory_key key store));
}

-- `objectKeyForArtifact`
unfoldable pub object_key_for_artifact : Text → Text → Text
object_key_for_artifact artifact_id checksum = artifact_id ++ codes "-" ++ take 16 checksum

-- `.split(";")[0]`
unfoldable pub before_semicolon : Text → Text
before_semicolon [] = []
before_semicolon (c ∷ s) = let later = before_semicolon s in if c == b';' then [] else c ∷ later

-- The type that the header names. Only ASCII letters are lowered: no other text that has a lower
-- case is in the allowlist, and a type outside it is not used.
unfoldable pub header_mime : Option Text → Text → Text
unfolding before_semicolon
header_mime none default = default
header_mime (some header) default = map to_lower (trim (before_semicolon header))

pub record ContentResponse : Type 0 where
  pub artifact_id : Text
  pub capture_status : ArtifactCaptureStatus
  pub checksum : Option Text
  pub byte_size : Option ℕ
  pub server_time : Text

abbrev pub content_response : ArtifactRow → Text → ContentResponse
content_response r now = record {
  artifact_id = r.artifact_id;
  capture_status = r.capture_status;
  checksum = r.checksum;
  byte_size = r.byte_size;
  server_time = now;
}

abbrev pub answered : Outcome ArtifactRow → Text → Outcome ContentResponse
answered (thrown e) now = thrown e
answered (returned r) now = returned (content_response r now)

-- `byte_size !== null && byte_size !== n`
abbrev pub size_differs : Option ℕ → ℕ → Bool
size_differs none n = false
size_differs (some m) n = not (m == n)

module _ {S : Type 0} (storage : ObjectStorage S) (sha256 : List ℕ → Text) (max_bytes : ℕ)
    (backend now : Text) where
  abbrev pub Result : Type 0
  Result = Outcome ContentResponse × WorkerDb × S

  -- The bytes must be readable and match the checksum before the row is stored.
  unfoldable pub confirm :
      WorkerDb → S → Text → Text → List ℕ → Outcome (Option StoredObject) → Result
  unfolding finalize_artifact_stored object_key_for_artifact
  confirm db store id mime buf (thrown e) = (thrown internal_error, db, store)
  confirm db store id mime buf (returned none) = (thrown internal_error, db, store)
  confirm db store id mime buf (returned (some o)) =
      if not (o.byte_size == length buf)
      then (thrown internal_error, db, store)
      else if not (text_eq (sha256 o.bytes) (sha256 buf))
      then (thrown internal_error, db, store)
      else let (row, db') = finalize_artifact_stored db (record {
        artifact_id = id;
        checksum = sha256 buf;
        byte_size = length buf;
        storage_backend = backend;
        storage_location = object_key_for_artifact id (sha256 buf);
        mime_type = mime;
      }) in
        (answered row now, db', store)

  unfoldable pub write_content : WorkerDb → S → Text → Text → List ℕ → Result
  unfolding confirm object_key_for_artifact
  write_content db store id mime buf =
      let key = object_key_for_artifact id (sha256 buf) in
      let (ok, store') = storage.put_object store key buf mime in
      if ok
      then confirm db store' id mime buf (storage.get_object store' key)
      else (thrown internal_error, db, store')

  -- The checks of the checksum and the size that the row declares.
  unfoldable pub put_checked : WorkerDb → S → Text → ArtifactRow → Text → List ℕ → Result
  unfolding write_content mark_artifact_conflict
  put_checked db store id existing mime buf =
      if is_stored existing.capture_status
      then (
        if differ existing.checksum (some (sha256 buf))
            then thrown conflict_error
            else returned (content_response existing now),
        db,
        store,
      )
      else if differ existing.checksum (some (sha256 buf))
      then (thrown conflict_error, mark_artifact_conflict id db, store)
      else if size_differs existing.byte_size (length buf)
      then (thrown conflict_error, mark_artifact_conflict id db, store)
      else write_content db store id mime buf

  -- `handlePutArtifactContent`
  unfoldable pub handle_put_artifact_content : WorkerDb → S → Text → Option Text → List ℕ → Result
  unfolding put_checked header_mime
  handle_put_artifact_content db store id header buf = elim (find_artifact id db.artifacts) [
    | none ↦ (thrown not_found, db, store)
    | some existing ↦
        let mime = header_mime header existing.mime_type in
        let effective = if is_allowed_image_mime mime then mime else existing.mime_type in
        if ltb max_bytes (length buf)
        then (thrown validation_error, db, store)
        else if not (is_allowed_image_mime mime) && not (is_allowed_image_mime existing.mime_type)
        then (thrown validation_error, db, store)
        else if not (is_allowed_image_mime effective)
        then (thrown validation_error, db, store)
        else put_checked db store id existing effective buf
  ]

  -- The object that a stored row names.
  unfoldable pub read_object : Text → Outcome (Option StoredObject) → Outcome StoredObject
  read_object checksum (thrown e) = thrown internal_error
  read_object checksum (returned none) = thrown integrity_error
  read_object checksum (returned (some o)) =
      if not (text_eq (sha256 o.bytes) checksum) then thrown integrity_error else returned o

  unfoldable pub read_located : S → Option Text → Option Text → Outcome StoredObject
  unfolding read_object
  read_located store none checksum = thrown integrity_error
  read_located store (some location) none = thrown integrity_error
  read_located store (some location) (some checksum) =
      read_object checksum (storage.get_object store location)

  -- `handleGetArtifactContent`
  unfoldable pub handle_get_artifact_content : WorkerDb → S → Text → Outcome StoredObject
  unfolding read_located find_artifact
  handle_get_artifact_content db store id = elim (find_artifact id db.artifacts) [
    | none ↦ thrown not_found
    | some r ↦
        if not (is_stored r.capture_status)
        then thrown not_found
        else read_located store r.storage_location r.checksum
  ]
