-- ===== src/Worker/Router/Tests.antt =====
-- Runs of the routing, and each theorem at a concrete input.
use newell_ai.Value.{Value, item, no_items}
use newell_ai.Worker.Samples.{body_with, turn_body}
use newell_ai.Common.{
  any, Text, codes, some, none, true, false, List, [], ◌∷◌, map, ◌≡◌, refl, subst, text_eq, trim,
}
use newell_ai.Queue.Sync.Sanitize.{to_lower}
use newell_ai.Worker.Artifacts.{returned, thrown, unauthorized}
use newell_ai.Worker.Artifacts.Content.{memory_object_storage, MemoryObject}
use newell_ai.Idb.{get}
use newell_ai.Worker.Auth.{bearer_is_capture_token, cookie_is_recall_session}
use newell_ai.Worker.Http.{WorkerEnv, HttpRequest}
use newell_ai.Worker.Router.{route_v1}
use newell_ai.Worker.Router.State.{Platform, WorkerState, Draw, conversations}
use newell_ai.Worker.Router.Paths.{endpoint_of, to_content, to_conversation_turns, nowhere}
use newell_ai.Worker.Db.{WorkerDb}
use newell_ai.Worker.Router.Blind.{with_data, IsBlind, route_v1-IsBlind}
use newell_ai.Worker.Router.Laws.{IsKept, route, route_v1-IsKept}

abbrev platform : Platform (List MemoryObject)
platform = record {
  storage = memory_object_storage;
  head = λ store location. returned false;
  sha256 = λ bytes. bytes;
  backend = codes "memory";
  digest = λ s. s;
  hash = λ s. s;
  like = λ text pattern. true;
  lower = map to_lower;
  decode = λ s. returned s;
}

abbrev env : WorkerEnv
env = record {
  capture_api_token = some (codes "t");
  allow_local_pairing = none;
  pairing_extension_origin = none;
  artifact_size_limit = some (codes "10");
}

abbrev draw : Draw
draw = record {
  now = codes "2026";
  now_ms = 5;
  uuid = codes "u";
  uuids = λ n. codes "n";
  session_token = codes "s";
}

abbrev start : WorkerState (List MemoryObject)
start = record {
  db = record { users = []; conversations = []; turns = []; artifacts = [] };
  store = [];
  sessions = record { hash = codes "r"; expires_at_ms = 9 } ∷ [];
  pairing_consumed = false;
}

abbrev request : Text → Text → HttpRequest
request method path = record {
  method = method;
  hostname = codes "localhost";
  pathname = path;
  headers = record {
    authorization = some (codes "Bearer x");
    cookie = some (codes "recall_session=r");
  };
  origin = none;
  content_type = none;
  query = none;
  limit = none;
  json = none;
  bytes = [];
}

abbrev stranger : HttpRequest
stranger = record (request (codes "GET") (codes "/v1/conversations")) {
  headers = record { authorization = none; cookie = none };
}

content_path : endpoint_of (codes "/v1/artifacts/a/content") ≡ to_content (codes "a")
unfolding endpoint_of text_eq codes
content_path = refl

no_id : endpoint_of (codes "/v1/artifacts//content") ≡ nowhere
unfolding endpoint_of text_eq codes
no_id = refl

turns_path : endpoint_of (codes "/v1/conversations/c/turns") ≡ to_conversation_turns (codes "c")
unfolding endpoint_of text_eq codes
turns_path = refl

session_reads :
    (route platform env draw (request (codes "GET") (codes "/v1/conversations")) start).0
    ≡ returned (conversations [])
unfolding route_v1 text_eq codes any trim get
session_reads = refl

session_cannot_write :
    (route platform env draw (request (codes "POST") (codes "/v1/turns")) start).0
    ≡ thrown unauthorized
unfolding route_v1 text_eq codes any trim
session_cannot_write = refl

stranger_is_refused : (route platform env draw stranger start).0 ≡ thrown unauthorized
unfolding route_v1 text_eq codes
stranger_is_refused = refl

wrong_bearer :
    (token : Text)
    → some (codes "t") ≡ some token
    → bearer_is_capture_token platform.digest platform.hash
        (record {
          authorization = some (codes "Bearer x");
          cookie = some (codes "recall_session=r");
        })
        token
      ≡ false
unfolding bearer_is_capture_token any trim codes text_eq
wrong_bearer token e =
    let same : codes "t" ≡ token = cc in
    subst
      (λ x.
        bearer_is_capture_token platform.digest platform.hash
          (record {
            authorization = some (codes "Bearer x");
            cookie = some (codes "recall_session=r");
          })
          x
        ≡ false)
      same refl

route_v1-IsKept_example :
    IsKept start
      (route platform env draw (request (codes "PUT") (codes "/v1/artifacts/a/content")) start).1
route_v1-IsKept_example =
    route_v1-IsKept platform env draw (request (codes "PUT") (codes "/v1/artifacts/a/content"))
      start wrong_bearer

no_bearer :
    (token : Text)
    → some (codes "t") ≡ some token
    → bearer_is_capture_token platform.digest platform.hash
        (record { authorization = none; cookie = none })
        token
      ≡ false
unfolding bearer_is_capture_token
no_bearer token e = refl

no_session :
    (cookie_is_recall_session platform.digest platform.hash
      (record { authorization = none; cookie = none })
      5
      start.sessions).0
    ≡ false
unfolding cookie_is_recall_session
no_session = refl

abbrev other_db : WorkerDb
other_db = record {
  users = record { user_id = codes "u"; created_at = codes "2025" } ∷ [];
  conversations = [];
  turns = [];
  artifacts = [];
}

route_v1-IsBlind_example :
    IsBlind platform env draw other_db []
      (route platform env draw stranger start)
      (route platform env draw stranger (with_data other_db [] start))
route_v1-IsBlind_example =
    route_v1-IsBlind platform env draw other_db [] stranger start no_bearer no_session

abbrev upload_value : Value
upload_value = body_with (item turn_body no_items)

abbrev post_upload : HttpRequest
post_upload = record (request (codes "POST") (codes "/v1/turns")) {
  headers = record { authorization = some (codes "bearer  t"); cookie = none };
  json = some upload_value;
}
