-- ===== src/Artifacts/Crossing/Tests.antt =====
-- Two syncs that cross, and the theorem at this run.
use newell_ai.Common.Keys.Instances.{text_cmp}
use newell_ai.Idb.{put, put_all}
use newell_ai.Common.Sorting.{sort}
use newell_ai.Common.{filter, codes, none, some, [], ◌∷◌, ◌++◌, ◌≡◌, refl, arith}
use newell_ai.Contracts.{user_uploaded}
use newell_ai.Artifacts.Types.{ArtifactDb, ArtifactEnqueueInput, ArtifactQueueEnvelope}
use newell_ai.Artifacts.Queue.{new_artifact}
use newell_ai.Artifacts.Sound.{IsSound}
use newell_ai.Artifacts.Sync.Select.{select_due_artifact, start_transfer}
use newell_ai.Artifacts.Sync.Once.{ArtifactFetchResult, responded, parsed}
use newell_ai.Artifacts.Crossing.{
  begin_transfer, Await, awaits_metadata, Transfers, entered, started, answered, at_rest, begin,
  answer,
}
use newell_ai.Artifacts.Crossing.Laws.{Run-IsSound}

abbrev image_input : ArtifactEnqueueInput
image_input = record {
  conversation_id = codes "c";
  user_id = codes "u";
  client_turn_id = codes "t";
  source_key = codes "file-1";
  direction = user_uploaded;
  mime_type = codes "image/png";
  declared_sha256 = none;
  declared_byte_size = none;
  original_filename = none;
  image_provenance = some (codes "unheard of");
  source_url = none;
  captured_at = none;
  capture = record {
    capture_client = codes "chrome-extension";
    capture_client_version = none;
    surface = none;
    captured_batch_id = none;
  };
  bytes = some (1 ∷ 2 ∷ []);
}

abbrev queued : ArtifactQueueEnvelope
queued = new_artifact image_input (codes "file-1") (codes "a") 5

abbrev queued_db : ArtifactDb
queued_db = record {
  queue = queued ∷ [];
  dead = [];
  conflicts = [];
  identities = [];
  status = none;
}

abbrev created : ArtifactFetchResult
created = responded 201 (parsed (some (codes "id")))

abbrev first : Await
first = awaits_metadata (start_transfer queued)

abbrev two_started : Transfers
two_started = started 12 13 (started 10 11 (record { db = queued_db; awaiting = [] }))

-- The second sync takes the record that the first one has under way.
takes_it_again : two_started.awaiting ≡ first ∷ first ∷ []
unfolding select_due_artifact sort filter new_artifact begin_transfer put put_all text_cmp codes
takes_it_again = refl

queued_db-IsSound : IsSound queued_db
unfolding new_artifact
queued_db-IsSound = record { waiting = ((omega arith, refl), tt); emptied = tt }

Run-IsSound_example :
    IsSound (entered (answered 10 11 first created two_started.db) ((first ∷ []) ++ [])).db
Run-IsSound_example =
    Run-IsSound
      (answer (begin (begin at_rest 10 11) 12 13) (first ∷ []) [] first takes_it_again created 10
        11)
      queued_db-IsSound
