-- ===== src/Artifacts/Tests.antt =====
-- Runs of the artifact queue on small data, and each theorem at a concrete input.
use newell_ai.Common.{
  ℕ, zero, suc, ◌≤◌, Text, codes, trim, Option, none, some, true, List, [], ◌∷◌, ◌++◌, map, length,
  ◌≡◌, ◌↔◌, ◌⊎◌, inl, inr, refl, arith, All,
}
use newell_ai.Common.Keys.{text_order, text_cmp}
use newell_ai.Contracts.{user_uploaded}
use newell_ai.Idb.{get, put}
use newell_ai.Artifacts.Types.{
  ArtifactQueueEnvelope, ArtifactDb, ArtifactEnqueueInput, ArtifactEnqueueResult, in_flight,
  artifact_key,
}
use newell_ai.Artifacts.Queue.{enqueue_artifact, register_artifact, new_artifact}
use newell_ai.Artifacts.Sync.Select.{
  select_due_artifact, revert_artifact, is_artifact_due, start_transfer,
}
use newell_ai.Artifacts.Sync.Once.{
  ArtifactSyncConfig, ArtifactHttpRequest, ArtifactFetchResult, responded, parsed,
  sync_artifact_once,
}
use newell_ai.Artifacts.Sync.Again.{IsArtifactOrdered, select_due_artifact_again}
use newell_ai.Artifacts.Sync.Oldest.{IsOldestDue, select_due_artifact-IsOldestDue}
use newell_ai.Artifacts.Sync.Kept.{is_kept}
use newell_ai.Artifacts.Sync.Safety.{IsAcknowledged, sync_artifact_once-IsSafe}
use newell_ai.Artifacts.Sync.Requests.{IsLawful, sync_artifact_once-IsLawful}
use newell_ai.Artifacts.Allowlist.{
  artifact_min_image_bytes, artifact_max_bytes, png_sig, valid, validate_image_payload, Url,
  estuary, validate_estuary_content_url,
}
use newell_ai.Artifacts.Allowlist.Laws.{
  IsImage, IsEstuaryUrl, validate_image_payload_iff, validate_estuary_content_url_iff,
}

abbrev input : ArtifactEnqueueInput
input = record {
  conversation_id = codes "c";
  user_id = codes "u";
  client_turn_id = codes "t";
  source_key = codes " file-1 ";
  direction = user_uploaded;
  mime_type = codes "image/png";
  declared_sha256 = none;
  declared_byte_size = none;
  original_filename = none;
  image_provenance = none;
  source_url = none;
  captured_at = none;
  capture = record {
    capture_client = codes "chrome-extension";
    capture_client_version = none;
    surface = none;
    captured_batch_id = none;
  };
  bytes = some (1 ∷ 2 ∷ []);
}

abbrev empty_db : ArtifactDb
empty_db = record { queue = []; dead = []; conflicts = []; identities = []; status = none }

abbrev waiting : ArtifactQueueEnvelope
waiting = new_artifact input (codes "file-1") (codes "a") 5

abbrev abandoned : ArtifactQueueEnvelope
abandoned = record (new_artifact input (codes "file-2") (codes "b") 3) { state = in_flight }

abbrev sample : ArtifactDb
sample = record empty_db { queue = waiting ∷ abandoned ∷ [] }

abbrev config : ArtifactSyncConfig
config = record { base_url = codes "http://w/"; token = codes " secret " }

abbrev accepts : ArtifactHttpRequest → ArtifactFetchResult
accepts request = responded 201 (parsed (some (codes "id")))

abbrev alone : ArtifactHttpRequest → ArtifactDb → ArtifactDb
alone request db = db

abbrev registered : ArtifactEnqueueResult × ArtifactDb
registered = register_artifact empty_db input (codes "file-1") (codes "a") 5

registers : enqueue_artifact empty_db input (codes "a") 5 ≡ some registered
unfolding enqueue_artifact register_artifact trim codes
registers = refl

sample-IsArtifactOrdered : IsArtifactOrdered sample.queue
unfolding text_cmp new_artifact codes
sample-IsArtifactOrdered = ((refl, tt), (tt, tt))

select_due_artifact_again_example :
    select_due_artifact 10 (select_due_artifact 10 sample.queue).1
    ≡ select_due_artifact 10 sample.queue
select_due_artifact_again_example =
    select_due_artifact_again 10 sample.queue sample-IsArtifactOrdered

select_due_artifact-IsOldestDue_example :
    let all = map revert_artifact sample.queue in
    ((select_due_artifact 10 sample.queue ≡ (none, all))
      × All (λ x. is_artifact_due 10 x ≡ true → ⊥) all)
    ⊎ ((e : ArtifactQueueEnvelope) × IsOldestDue 10 all e
        × (select_due_artifact 10 sample.queue
            ≡ (some (start_transfer e), put artifact_key (start_transfer e) all)))
select_due_artifact-IsOldestDue_example =
    select_due_artifact-IsOldestDue 10 sample.queue sample-IsArtifactOrdered

sync_artifact_once-IsSafe_example :
    let run = sync_artifact_once accepts 10 11 alone sample config in
    (is_kept (codes "b") (codes "file-2") run.db ≡ true)
    ⊎ IsAcknowledged accepts (some (1 ∷ 2 ∷ [])) run.sent
unfolding new_artifact text_cmp codes
sync_artifact_once-IsSafe_example =
    sync_artifact_once-IsSafe accepts 10 11 alone sample config (codes "b") abandoned
      sample-IsArtifactOrdered (unfold get in refl) (λ r db h. h)

sync_artifact_once-IsLawful_example :
    let sent = (sync_artifact_once accepts 10 11 alone sample config).sent in
    (sent ≡ []) ⊎ IsLawful accepts 10 11 alone sample config sent
sync_artifact_once-IsLawful_example = sync_artifact_once-IsLawful accepts 10 11 alone config sample

abbrev zeros : ℕ → List ℕ
zeros zero = []
zeros (suc n) = 0 ∷ zeros n

abbrev picture : List ℕ
picture = png_sig ++ zeros 120

picture_is_valid :
    (codes "image/png" ≡ codes "image/png")
    × (artifact_min_image_bytes ≤ length picture)
    × (length picture ≤ artifact_max_bytes)
    × IsImage picture (codes "image/png")
picture_is_valid = (refl, omega arith, omega arith, inl (refl, (omega arith, refl)))

validate_image_payload_iff_example :
    (validate_image_payload picture (codes "image/png") ≡ valid (codes "image/png")) ↔ (
      (codes "image/png" ≡ codes "image/png")
      × (artifact_min_image_bytes ≤ length picture)
      × (length picture ≤ artifact_max_bytes)
      × IsImage picture (codes "image/png"))
validate_image_payload_iff_example =
    validate_image_payload_iff picture (codes "image/png") (codes "image/png")

picture_passes : validate_image_payload picture (codes "image/png") ≡ valid (codes "image/png")
picture_passes =
    (validate_image_payload_iff picture (codes "image/png") (codes "image/png")).1 picture_is_valid

abbrev address : Url
address = record {
  protocol = codes "https:";
  hostname = codes "chatgpt.com";
  pathname = codes "/backend-api/estuary/content/";
  id = some (codes " file_1 ");
}

abbrev parses : Text → Option Url
parses raw = some address

validate_estuary_content_url_iff_example :
    (validate_estuary_content_url parses (codes "x") ≡ estuary address (codes "file_1"))
    ↔ ((some address ≡ some address) × IsEstuaryUrl address (codes "file_1"))
validate_estuary_content_url_iff_example =
    validate_estuary_content_url_iff parses (codes "x") address (codes "file_1")

address_passes : validate_estuary_content_url parses (codes "x") ≡ estuary address (codes "file_1")
unfolding codes trim
address_passes =
    validate_estuary_content_url_iff_example.1
      (refl, record { secure = refl; host = refl; path = inr refl; id = refl; filled = λ e. cc })
