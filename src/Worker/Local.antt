-- ===== src/Worker/Local.antt =====
-- The routes that only a local worker has: apps/worker/src/routes/v1/devPair.ts with the latch of
-- apps/worker/src/pairingState.ts, and apps/worker/src/routes/v1/recallSession.ts. A new session's
-- random token and the time are arguments. `none` stands for a path that is not theirs.
pub mod Laws
mod Tests
use newell_ai.Common.{
  ℕ, Text, codes, text_eq, trim, Option, none, some, Bool, true, false, not, ◌&&◌, ◌||◌, List, [],
  ◌∷◌, ◌++◌, take, drop, length, leb, ◌==◌, if◌then◌else◌,
}
use newell_ai.Worker.Artifacts.{
  Outcome, returned, thrown, not_found, forbidden, method_not_allowed, internal_error,
}
use newell_ai.Worker.Auth.{
  SessionRecord, recall_session_cookie, parse_cookie_value, create_recall_session,
  revoke_recall_session,
}
use newell_ai.Worker.Http.{WorkerEnv, HttpRequest}

abbrev pub is_text : Text → Option Text → Bool
is_text s none = false
is_text s (some t) = text_eq t s

-- `pairingEnabled`
unfoldable pub pairing_enabled : WorkerEnv → Bool
pairing_enabled env = is_text (codes "true") env.allow_local_pairing

-- `isLoopbackHost`
unfoldable pub is_loopback_host : Text → Bool
is_loopback_host hostname =
    text_eq hostname (codes "127.0.0.1") || text_eq hostname (codes "localhost")

-- `[a-p]*`
unfoldable pub are_a_to_p : Text → Bool
are_a_to_p [] = true
are_a_to_p (c ∷ s) = leb b'a' c && leb c b'p' && are_a_to_p s

-- `/^chrome-extension:\/\/[a-p]{32}$/`
unfoldable pub is_extension_origin : Text → Bool
unfolding are_a_to_p
is_extension_origin s =
    text_eq (take 19 s) (codes "chrome-extension://")
    && length (drop 19 s) == 32
    && are_a_to_p (drop 19 s)

-- `expectedOrigin`
unfoldable pub expected_origin : Option Text → Option Text
unfolding is_extension_origin
expected_origin none = none
expected_origin (some raw) = if is_extension_origin (trim raw) then some (trim raw) else none

-- `requestOrigin`
unfoldable pub request_origin : Option Text → Option Text
request_origin none = none
request_origin (some origin) =
    if length origin == 0 then none else if text_eq origin (codes "null") then none else some origin

-- An answer of the pairing route, with the origin of its CORS headers.
pub data PairReply : Type 0 where
  preflight : Text → PairReply
  handed_out : Text → Text → PairReply

-- The token is handed out and the latch falls.
unfoldable pub hand_out : Option Text → Text → Bool → Outcome PairReply × Bool
hand_out none allowed consumed = (thrown internal_error, consumed)
hand_out (some []) allowed consumed = (thrown internal_error, consumed)
hand_out (some (c ∷ s)) allowed consumed = (returned (handed_out (c ∷ s) allowed), true)

unfoldable pub answer_pair : WorkerEnv → HttpRequest → Text → Bool → Outcome PairReply × Bool
unfolding hand_out
answer_pair env req allowed consumed =
    if text_eq req.method (codes "OPTIONS")
    then (returned (preflight allowed), consumed)
    else if not (text_eq req.method (codes "POST"))
    then (thrown method_not_allowed, consumed)
    else if consumed
    then (thrown forbidden, consumed)
    else hand_out env.capture_api_token allowed consumed

unfoldable pub pair_from : WorkerEnv → HttpRequest → Option Text → Bool → Outcome PairReply × Bool
unfolding request_origin answer_pair
pair_from env req none consumed = (thrown not_found, consumed)
pair_from env req (some allowed) consumed =
    if is_text allowed (request_origin req.origin)
    then answer_pair env req allowed consumed
    else (thrown forbidden, consumed)

abbrev pub dev_pair_path : Text
dev_pair_path = codes "/v1/dev/pair"

-- `handleDevPair` behind the test of the path; the state is `pairingConsumed`.
unfoldable pub dev_pair : WorkerEnv → HttpRequest → Bool → Outcome PairReply × Bool
unfolding pairing_enabled is_loopback_host expected_origin pair_from
dev_pair env req consumed =
    if not (pairing_enabled env)
    then (thrown not_found, consumed)
    else if not (is_loopback_host req.hostname)
    then (thrown not_found, consumed)
    else pair_from env req (expected_origin env.pairing_extension_origin) consumed

-- `handleDevPair`
unfoldable pub handle_dev_pair : WorkerEnv → HttpRequest → Bool → Option (Outcome PairReply × Bool)
unfolding dev_pair
handle_dev_pair env req consumed =
    if text_eq req.pathname dev_pair_path then some (dev_pair env req consumed) else none

-- Requests one after the other, and the answers to them.
unfoldable pub answer_pairs : WorkerEnv → Bool → List HttpRequest → List (Outcome PairReply)
unfolding dev_pair
answer_pairs env consumed [] = []
answer_pairs env consumed (req ∷ reqs) =
    let (answer, consumed') = dev_pair env req consumed in answer ∷ answer_pairs env consumed' reqs

-- `setCookieHeader`
unfoldable pub set_cookie_header : Text → Text
set_cookie_header raw =
    recall_session_cookie
    ++ codes "="
    ++ raw
    ++ codes "; HttpOnly; SameSite=Strict; Path=/; Max-Age=43200"

-- `clearCookieHeader`
abbrev pub clear_cookie_header : Text
clear_cookie_header =
    recall_session_cookie ++ codes "=; HttpOnly; SameSite=Strict; Path=/; Max-Age=0"

abbrev pub session_path : Text
session_path = codes "/v1/dev/recall/session"

abbrev pub session_revoke_path : Text
session_revoke_path = codes "/v1/dev/recall/session/revoke"

module _ (digest : Text → List ℕ) (hash : Text → Text) where
  -- The answers have no body but `ok`; what is kept of them is the `Set-Cookie` header.
  unfoldable pub mint_session :
      Option Text → Text → ℕ → List SessionRecord → Outcome Text × List SessionRecord
  unfolding create_recall_session set_cookie_header
  mint_session none raw now sessions = (thrown internal_error, sessions)
  mint_session (some []) raw now sessions = (thrown internal_error, sessions)
  mint_session (some (c ∷ s)) raw now sessions =
      (returned (set_cookie_header raw), create_recall_session digest hash raw now sessions)

  abbrev pub revoke_presented : Option Text → List SessionRecord → List SessionRecord
  revoke_presented none sessions = sessions
  revoke_presented (some raw) sessions = revoke_recall_session digest hash raw sessions

  -- `handleRecallSession` behind the tests of the path
  unfoldable pub recall_session :
      WorkerEnv
      → HttpRequest
      → Bool
      → Text
      → ℕ
      → List SessionRecord
      → Outcome Text × List SessionRecord
  unfolding pairing_enabled is_loopback_host mint_session revoke_recall_session parse_cookie_value
  recall_session env req is_revoke raw now sessions =
      if not (pairing_enabled env)
      then (thrown not_found, sessions)
      else if not (is_loopback_host req.hostname)
      then (thrown not_found, sessions)
      else if not (text_eq req.method (codes "POST"))
      then (thrown method_not_allowed, sessions)
      else if is_revoke
      then (
        returned clear_cookie_header,
        revoke_presented (parse_cookie_value req.headers.cookie recall_session_cookie) sessions,
      )
      else mint_session env.capture_api_token raw now sessions

  -- `handleRecallSession`
  unfoldable pub handle_recall_session :
      WorkerEnv
      → HttpRequest
      → Text
      → ℕ
      → List SessionRecord
      → Option (Outcome Text × List SessionRecord)
  unfolding recall_session
  handle_recall_session env req raw now sessions =
      let is_revoke = text_eq req.pathname session_revoke_path in
      if text_eq req.pathname session_path || is_revoke
      then some (recall_session env req is_revoke raw now sessions)
      else none
