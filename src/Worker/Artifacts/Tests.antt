-- ===== src/Worker/Artifacts/Tests.antt =====
-- Artifacts of the worker on small data, and each theorem at a concrete input.
use newell_ai.Common.{ℕ, Text, codes, text_eq, any, trim, none, some, List, [], ◌∷◌, ◌≡◌, refl}
use newell_ai.Common.Keys.{text_order, pair_order, text_cmp}
use newell_ai.Idb.{get, put}
use newell_ai.Contracts.{CaptureMetadata, ArtifactCreateRequest, user_uploaded, image, stored}
use newell_ai.Worker.Db.{ArtifactRow, WorkerDb}
use newell_ai.Worker.Artifacts.{returned, new_row, find_artifact, is_allowed_image_mime}
use newell_ai.Worker.Artifacts.Laws.{row_of}
use newell_ai.Worker.Artifacts.Content.{
  StoredObject, MemoryObject, memory_object_storage, ContentResponse, handle_put_artifact_content,
  handle_get_artifact_content,
}
use newell_ai.Worker.Artifacts.Safety.{IsReadable, handle_put_artifact_content-IsReadable}
use newell_ai.Worker.Artifacts.Reads.{IsIntact, handle_get_artifact_content-IsIntact}

abbrev empty_db : WorkerDb
empty_db = record { users = []; conversations = []; turns = []; artifacts = [] }

abbrev capture : CaptureMetadata
capture = record {
  capture_client = codes "chrome-extension";
  capture_client_version = none;
  surface = none;
  captured_batch_id = none;
}

abbrev request : ArtifactCreateRequest
request = record {
  client_artifact_id = codes "file-1";
  conversation_id = codes "c";
  user_id = codes "u";
  client_turn_id = codes "a";
  direction = user_uploaded;
  artifact_type = image;
  mime_type = codes "image/png";
  declared_sha256 = some (codes "ab");
  declared_byte_size = some 2;
  original_filename = none;
  image_provenance = none;
  parent_artifact_id = none;
  source_key = none;
  captured_at = none;
  capture = capture;
}

abbrev other_bytes : ArtifactCreateRequest
other_bytes = record request { declared_sha256 = some (codes "cd") }

no_row : row_of empty_db request ≡ none
unfolding get
no_row = refl

abbrev open_row : ArtifactRow
open_row = new_row request none (codes "x") (codes "now")

abbrev open_db : WorkerDb
open_db = record empty_db { artifacts = open_row ∷ [] }

abbrev bytes : List ℕ
bytes = 1 ∷ 2 ∷ []

-- Any function stands for the digest.
abbrev digest : List ℕ → Text
digest b = codes "ab"

abbrev written : ContentResponse
written = record {
  artifact_id = codes "x";
  capture_status = stored;
  checksum = some (codes "ab");
  byte_size = some 2;
  server_time = codes "now";
}

open_row_found : find_artifact (codes "x") open_db.artifacts ≡ some open_row
unfolding find_artifact text_eq new_row codes
open_row_found = refl

writes :
    (handle_put_artifact_content memory_object_storage digest 100
      (codes "memory")
      (codes "now")
      open_db
      []
      (codes "x")
      (some (codes "image/PNG; q=1"))
      bytes).0
    ≡ returned written
unfolding handle_put_artifact_content text_eq new_row codes is_allowed_image_mime any trim get put
    text_cmp
writes = refl

handle_put_artifact_content-IsReadable_example :
    let r =
      handle_put_artifact_content memory_object_storage digest 100
        (codes "memory")
        (codes "now")
        open_db
        []
        (codes "x")
        (some (codes "image/PNG; q=1"))
        bytes in
    IsReadable memory_object_storage digest 100
      (codes "memory")
      (codes "now")
      r.1
      r.2
      (codes "x")
      bytes
unfolding new_row
handle_put_artifact_content-IsReadable_example =
    handle_put_artifact_content-IsReadable memory_object_storage digest 100 (codes "memory")
      (codes "now") open_db [] (codes "x") (some (codes "image/PNG; q=1")) bytes open_row written
      open_row_found refl writes

abbrev stored_row : ArtifactRow
stored_row = record open_row {
  capture_status = stored;
  checksum = some (codes "ab");
  storage_location = some (codes "k");
}

abbrev stored_db : WorkerDb
stored_db = record empty_db { artifacts = stored_row ∷ [] }

abbrev objects : List MemoryObject
objects = record { key = codes "k"; bytes = bytes; content_type = codes "image/png" } ∷ []

abbrev object : StoredObject
object = record { bytes = bytes; content_type = codes "image/png"; byte_size = 2 }

stored_row_found : find_artifact (codes "x") stored_db.artifacts ≡ some stored_row
unfolding find_artifact text_eq new_row codes
stored_row_found = refl

reads :
    handle_get_artifact_content memory_object_storage digest 100
      (codes "memory")
      (codes "now")
      stored_db
      objects
      (codes "x")
    ≡ returned object
unfolding handle_get_artifact_content text_eq new_row codes get text_cmp
reads = refl

handle_get_artifact_content-IsIntact_example :
    IsIntact memory_object_storage digest 100
      (codes "memory")
      (codes "now")
      stored_db
      objects
      (codes "x")
      object
handle_get_artifact_content-IsIntact_example =
    handle_get_artifact_content-IsIntact memory_object_storage digest 100 (codes "memory")
      (codes "now") stored_db objects (codes "x") object reads
