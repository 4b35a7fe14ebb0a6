-- ===== src/Worker/Reads/Tests.antt =====
-- Runs of the queries on small tables, and each theorem at a concrete input.
use newell_ai.Common.{
  trim, ◌+◌, ◌≤◌, Text, codes, Option, none, some, Bool, true, List, [], ◌∷◌, map, ◌≡◌, refl,
  text_eq, take,
}
use newell_ai.Common.Int.{ℤ, pos}
use newell_ai.Contracts.{user, ConversationSummary, stored, unresolved, user_uploaded, image}
use newell_ai.Queue.Sync.Sanitize.{to_lower}
use newell_ai.Worker.Artifacts.{Outcome, returned, thrown, validation_error}
use newell_ai.Worker.Db.{TurnRow, ConversationRow, ArtifactRow, WorkerDb}
use newell_ai.Worker.Reads.{
  list_conversations, search_turns, hit_of, parse_search_limit, validate_search_query,
}
use newell_ai.Worker.Reads.Found.{IsFound, search_turns-IsFound}
use newell_ai.Worker.Reads.Status.{get_system_status, get_system_status_adds_up}

abbrev read_turn_row : Text → Text → Option ℤ → Text → TurnRow
read_turn_row id text n at = record {
  turn_id = id;
  conversation_id = codes "c1";
  client_turn_id = id;
  speaker = user;
  text = text;
  captured_at = none;
  sequence = n;
  parent_client_turn_id = none;
  message_type = none;
  topic = none;
  capture_client = codes "x";
  capture_client_version = none;
  surface = none;
  captured_batch_id = none;
  created_at = at;
}

abbrev late_turn : TurnRow
late_turn = read_turn_row (codes "t1") (codes "Hello World") none (codes "2026-01-03")

abbrev second_turn : TurnRow
second_turn = read_turn_row (codes "t2") (codes "hello") (some (pos 2)) (codes "2026-01-02")

abbrev first_turn : TurnRow
first_turn = read_turn_row (codes "t3") (codes "bye") (some (pos 1)) (codes "2026-01-04")

abbrev conversation_row : Text → ConversationRow
conversation_row id = record {
  conversation_id = id;
  user_id = codes "u";
  title = none;
  source_model = none;
  started_at = none;
  created_at = codes "2026-01-01";
}

abbrev artifact_row : Option Text → ArtifactRow
artifact_row location = record {
  artifact_id = codes "a";
  client_artifact_id = codes "a";
  conversation_id = codes "c1";
  turn_id = none;
  client_turn_id = codes "t1";
  linkage_status = unresolved;
  direction = user_uploaded;
  artifact_type = image;
  image_provenance = none;
  original_filename = none;
  mime_type = codes "image/png";
  byte_size = none;
  checksum = none;
  source_key = none;
  storage_backend = none;
  storage_location = location;
  capture_status = stored;
  parent_artifact_id = none;
  capture_client = codes "x";
  capture_client_version = none;
  surface = none;
  captured_at = none;
  created_at = codes "2026-01-05";
}

abbrev small_db : WorkerDb
small_db = record {
  users = [];
  conversations = conversation_row (codes "c0") ∷ conversation_row (codes "c1") ∷ [];
  turns = late_turn ∷ second_turn ∷ first_turn ∷ [];
  artifacts =
      artifact_row none ∷ artifact_row (some (codes "f1")) ∷ artifact_row (some (codes "f2")) ∷ [];
}

abbrev lower : Text → Text
lower = map to_lower

abbrev anything : Text → Text → Bool
anything text pattern = true

abbrev down : Text → Outcome Bool
down location = thrown validation_error

latest_first :
    map (λ (c : ConversationSummary). c.turn_count) (list_conversations small_db) ≡ 3 ∷ 0 ∷ []
unfolding list_conversations text_eq codes
latest_first = refl

limit_text : parse_search_limit (some (codes " 12abc")) ≡ returned 12
unfolding parse_search_limit trim codes
limit_text = refl

limit_large : parse_search_limit (some (codes "900")) ≡ returned 50
unfolding parse_search_limit trim codes
limit_large = refl

limit_negative : parse_search_limit (some (codes "-3")) ≡ thrown validation_error
unfolding parse_search_limit trim codes
limit_negative = refl

query_short : validate_search_query (some (codes " a ")) ≡ thrown validation_error
unfolding validate_search_query trim codes
query_short = refl

storage_down : (get_system_status down small_db).artifacts.bytes_missing ≡ 3
unfolding get_system_status codes
storage_down = refl

search_turns-IsFound_example :
    (all : List TurnRow) × (search_turns anything lower small_db (codes "he") 2
      ≡ map (hit_of anything lower small_db (codes "he")) (take 2 all))
    × IsFound anything small_db (codes "he") all
search_turns-IsFound_example = search_turns-IsFound anything lower small_db (codes "he") 2

get_system_status_adds_up_example :
    let c = (get_system_status down small_db).artifacts in
    (c.stored_count + c.pending_download_count + c.failed_download_count + c.other ≡ 3)
    × (c.bytes_missing ≤ c.stored_count)
get_system_status_adds_up_example = get_system_status_adds_up down small_db
