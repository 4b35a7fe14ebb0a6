-- ===== src/Worker/Local/Tests.antt =====
-- Runs of the local routes, and each theorem at a concrete input.
use newell_ai.Common.{
  text_eq, trim, ◌≤◌, Text, codes, some, none, false, [], ◌∷◌, ◌++◌, ◌≡◌, refl, count_if,
}
use newell_ai.Worker.Artifacts.{returned, thrown, forbidden, method_not_allowed}
use newell_ai.Worker.Http.{WorkerEnv, HttpRequest}
use newell_ai.Worker.Local.{handed_out, preflight, dev_pair, answer_pairs}
use newell_ai.Worker.Local.Laws.{is_handed_out, IsPaired, answer_pairs_once, dev_pair-IsPaired}

abbrev extension : Text
extension = codes "chrome-extension://" ++ codes "abcdefghijklmnopabcdefghijklmnop"

abbrev local_env : WorkerEnv
local_env = record {
  capture_api_token = some (codes "t");
  allow_local_pairing = some (codes "true");
  pairing_extension_origin = some extension;
  artifact_size_limit = none;
}

abbrev pair_request : Text → HttpRequest
pair_request method = record {
  method = method;
  hostname = codes "localhost";
  pathname = codes "/v1/dev/pair";
  headers = record { authorization = none; cookie = none };
  origin = some extension;
  content_type = none;
  query = none;
  limit = none;
  json = none;
  bytes = [];
}

pair_answer :
    (dev_pair local_env (pair_request (codes "POST")) false).0
    ≡ returned (handed_out (codes "t") extension)
unfolding dev_pair text_eq codes trim
pair_answer = refl

pairs_once :
    answer_pairs local_env false (
      pair_request (codes "OPTIONS")
      ∷ pair_request (codes "POST")
      ∷ pair_request (codes "POST")
      ∷ pair_request (codes "GET")
      ∷ [])
    ≡ returned (preflight extension)
      ∷ returned (handed_out (codes "t") extension)
      ∷ thrown forbidden
      ∷ thrown method_not_allowed
      ∷ []
unfolding answer_pairs text_eq codes trim
pairs_once = refl

answer_pairs_once_example :
    count_if is_handed_out (
      answer_pairs local_env false (pair_request (codes "POST") ∷ pair_request (codes "POST") ∷ []))
    ≤ 1
answer_pairs_once_example =
    answer_pairs_once local_env false
      (pair_request (codes "POST") ∷ pair_request (codes "POST") ∷ [])

dev_pair-IsPaired_example : IsPaired local_env (pair_request (codes "POST")) (codes "t") extension
dev_pair-IsPaired_example =
    dev_pair-IsPaired local_env (pair_request (codes "POST")) false (codes "t") extension
      pair_answer
