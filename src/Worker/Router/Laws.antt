-- ===== src/Worker/Router/Laws.antt =====
-- What a request without the capture token can do.
use newell_ai.Common.{
  ℕ, Text, codes, text_eq, Option, none, some, Bool, true, false, List, [], ◌∷◌, ◌≡◌, refl, inl,
  inr, Bool-cases, if◌then◌else◌,
}
use newell_ai.Worker.Artifacts.{ErrorCode, Outcome, returned, thrown}
use newell_ai.Worker.Auth.{
  AuthScope, capture_full, recall_read, SessionRecord, bearer_is_capture_token,
  cookie_is_recall_session, session_scope, authorize, require_auth,
}
use newell_ai.Worker.Auth.Laws.{long_configured}
use newell_ai.Worker.Http.{WorkerEnv, HttpRequest}
use newell_ai.Worker.Local.{PairReply, handle_dev_pair}
use newell_ai.Worker.Router.{
  let_in, guarded, guarded_read, handle_ingest_turns, handle_create_artifact, decoded,
  handle_endpoint, or_session, or_pair, route_v1,
}
use newell_ai.Worker.Router.State.{Reply, Platform, WorkerState, Draw}
use newell_ai.Worker.Router.Paths.{
  Endpoint, to_turns, to_conversations, to_search, to_status, to_artifacts, nowhere, to_content,
  to_artifact, to_conversation_artifacts, to_conversation_turns, endpoint_of,
}

abbrev pub granted : Outcome AuthScope → Bool
granted (thrown e) = false
granted (returned scope) = true

-- The database and the storage are the same.
abbrev pub IsKept : {S : Type 0} → WorkerState S → WorkerState S → Type 0
IsKept st st' = (st'.db ≡ st.db) × (st'.store ≡ st.store)

module _ (digest : Text → List ℕ) (hash : Text → Text) (env : WorkerEnv) (req : HttpRequest)
    (now : ℕ) (sessions : List SessionRecord)
    (outside : (token : Text)
      → env.capture_api_token ≡ some token
      → bearer_is_capture_token digest hash req.headers token ≡ false) where
  session_scope-granted :
      (x : Bool × List SessionRecord)
      → x.0 ≡ false
      → granted (session_scope digest hash x).0 ≡ false
  session_scope-granted (ok, rest) h = rw h refl

  authorize-granted :
      (token : Text) (required : AuthScope)
      → bearer_is_capture_token digest hash req.headers token ≡ false
      → (required ≡ recall_read
          → (cookie_is_recall_session digest hash req.headers now sessions).0 ≡ false)
      → granted (authorize digest hash req.headers token required now sessions).0 ≡ false
  unfolding authorize
  authorize-granted token capture_full h k = rw h refl
  authorize-granted token recall_read h k = rw h (
      session_scope-granted (cookie_is_recall_session digest hash req.headers now sessions)
        (k refl))

  pub require_auth-granted :
      (required : AuthScope)
      → (required ≡ recall_read
          → (cookie_is_recall_session digest hash req.headers now sessions).0 ≡ false)
      → granted (require_auth digest hash req.headers env.capture_api_token required now sessions).0
        ≡ false
  unfolding require_auth
  require_auth-granted required closed = from env.capture_api_token outside required closed
    where
      from :
          (o : Option Text)
          → ((token : Text)
              → o ≡ some token
              → bearer_is_capture_token digest hash req.headers token ≡ false)
          → (required : AuthScope)
          → (required ≡ recall_read
              → (cookie_is_recall_session digest hash req.headers now sessions).0 ≡ false)
          → granted (require_auth digest hash req.headers o required now sessions).0 ≡ false
      from none h required k = refl
      from (some []) h required k = refl
      from (some (c ∷ s)) h required k =
          rw (long_configured digest hash req.headers c s required now sessions)
            (authorize-granted (c ∷ s) required (h (c ∷ s) refl) k)

module _ {S : Type 0} (platform : Platform S) (env : WorkerEnv) (draw : Draw) where
  abbrev IsHeld : WorkerState S → Outcome Reply × WorkerState S → Type 0
  IsHeld st x = IsKept st x.1

  abbrev pub route : HttpRequest → WorkerState S → Outcome Reply × WorkerState S
  route = route_v1 platform env draw

  let_in-IsHeld :
      (o : Outcome AuthScope × List SessionRecord) (st : WorkerState S)
      (next : WorkerState S → Outcome Reply × WorkerState S)
      → granted o.0 ≡ false
      → IsHeld st (let_in platform env draw o st next)
  let_in-IsHeld (thrown e, rest) st next h = (refl, refl)
  let_in-IsHeld (returned scope, rest) st next h = cc

  let_in-IsKept :
      (o : Outcome AuthScope × List SessionRecord) (st : WorkerState S)
      (f : WorkerState S → Outcome Reply)
      → IsKept st (let_in platform env draw o st (λ s. (f s, s))).1
  let_in-IsKept (thrown e, rest) st f = (refl, refl)
  let_in-IsKept (returned scope, rest) st f = (refl, refl)

  guarded_read-IsKept :
      (req : HttpRequest) (st : WorkerState S) (f : WorkerState S → Outcome Reply)
      → IsKept st (guarded_read platform env draw req st f).1
  unfolding guarded_read guarded
  guarded_read-IsKept req st f = elim (Bool-cases (text_eq req.method (codes "GET"))) [
    | inr e ↦ rw e (refl, refl)
    | inl e ↦ rw e (
        let_in-IsKept
          (require_auth platform.digest platform.hash req.headers env.capture_api_token recall_read
            draw.now_ms st.sessions)
          st f)
  ]

  -- What every answer of a guard has, and every answer that changes nothing, each route has.
  module _ (req : HttpRequest) (st : WorkerState S) (P : Outcome Reply × WorkerState S → Type 0)
      (refusing : (e : ErrorCode) → P (thrown e, st))
      (writing : (method : Text) (next : WorkerState S → Outcome Reply × WorkerState S)
        → P (guarded platform env draw method capture_full req st next))
      (reads : (f : WorkerState S → Outcome Reply)
        → P (guarded_read platform env draw req st f)) where
    decoded-all :
        (o : Outcome Text) (next : Text → Outcome Reply × WorkerState S)
        → ((id : Text) → P (next id))
        → P (decoded platform env draw o st next)
    decoded-all (thrown e) next h = refusing e
    decoded-all (returned id) next h = h id

    if-all : (b : Bool) (x y : Outcome Reply × WorkerState S) → P x → P y → P (if b then x else y)
    if-all true x y h k = h
    if-all false x y h k = k

    handle_endpoint-all : (e : Endpoint) → P (handle_endpoint platform env draw e req st)
    unfolding handle_endpoint handle_ingest_turns handle_create_artifact
    handle_endpoint-all to_turns = writing _ _
    handle_endpoint-all to_conversations = reads _
    handle_endpoint-all to_search = reads _
    handle_endpoint-all to_status = reads _
    handle_endpoint-all to_artifacts = writing _ _
    handle_endpoint-all nowhere = refusing _
    handle_endpoint-all (to_content raw) =
        decoded-all (platform.decode raw) _
          (λ id. if-all _ _ _ (writing _ _) (if-all _ _ _ (reads _) (refusing _)))
    handle_endpoint-all (to_artifact raw) = decoded-all (platform.decode raw) _ (λ id. reads _)
    handle_endpoint-all (to_conversation_artifacts raw) =
        decoded-all (platform.decode raw) _ (λ id. reads _)
    handle_endpoint-all (to_conversation_turns raw) =
        decoded-all (platform.decode raw) _ (λ id. reads _)

  guarded-IsHeld :
      (method : Text) (required : AuthScope) (req : HttpRequest) (st : WorkerState S)
      (next : WorkerState S → Outcome Reply × WorkerState S)
      → granted
          (require_auth platform.digest platform.hash req.headers env.capture_api_token required
            draw.now_ms st.sessions).0
        ≡ false
      → IsHeld st (guarded platform env draw method required req st next)
  unfolding guarded
  guarded-IsHeld method required req st next h = elim (Bool-cases (text_eq req.method method)) [
    | inr e ↦ rw e (refl, refl)
    | inl e ↦ rw e (let_in-IsHeld _ st next h)
  ]

  -- The local routes keep the database and the storage.
  or_session-all :
      (req : HttpRequest) (st : WorkerState S) (P : Outcome Reply × WorkerState S → Type 0)
      → ((x : Outcome Reply × WorkerState S) → IsHeld st x → P x)
      → P (handle_endpoint platform env draw (endpoint_of req.pathname) req st)
      → (o : Option (Outcome Text × List SessionRecord)) → P (or_session platform env draw o req st)
  or_session-all req st P closed h none = h
  or_session-all req st P closed h (some (thrown e, rest)) = closed _ (refl, refl)
  or_session-all req st P closed h (some (returned r, rest)) = closed _ (refl, refl)

  route_v1-all :
      (req : HttpRequest) (st : WorkerState S) (P : Outcome Reply × WorkerState S → Type 0)
      → ((x : Outcome Reply × WorkerState S) → IsHeld st x → P x)
      → P (handle_endpoint platform env draw (endpoint_of req.pathname) req st)
      → P (route req st)
  unfolding route_v1
  route_v1-all req st P closed h = from (handle_dev_pair env req st.pairing_consumed)
    where
      from : (o : Option (Outcome PairReply × Bool)) → P (or_pair platform env draw o req st)
      from none = or_session-all req st P closed h _
      from (some (thrown e, consumed)) = closed _ (refl, refl)
      from (some (returned r, consumed)) = closed _ (refl, refl)

  -- A request whose bearer token is not the configured one leaves the database and the storage as
  -- they are, whatever its path, its method and its body, and whether or not it has a session.
  pub route_v1-IsKept :
      (req : HttpRequest) (st : WorkerState S)
      → ((token : Text)
          → env.capture_api_token ≡ some token
          → bearer_is_capture_token platform.digest platform.hash req.headers token ≡ false)
      → IsKept st (route req st).1
  route_v1-IsKept req st outside =
      route_v1-all req st (λ x. IsKept st x.1) (λ x h. h)
        (handle_endpoint-all req st (λ x. IsKept st x.1) (λ e. (refl, refl))
          (λ method next. guarded-IsHeld method capture_full req st next (
            require_auth-granted platform.digest platform.hash env req draw.now_ms st.sessions
              outside capture_full (λ e. cc)))
          (guarded_read-IsKept req st) (endpoint_of req.pathname))
