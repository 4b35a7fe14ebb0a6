-- ===== src/Worker/Router/Blind.antt =====
-- What a request with neither the token nor a session learns: its answer does not depend on the
-- database and the storage.
use newell_ai.Common.{
  Text, codes, text_eq, Option, none, some, Bool, true, false, List, ◌≡◌, refl, inl, inr,
  Bool-cases, if◌then◌else◌,
}
use newell_ai.Worker.Artifacts.{ErrorCode, Outcome, returned, thrown}
use newell_ai.Worker.Auth.{
  AuthScope, capture_full, recall_read, SessionRecord, bearer_is_capture_token,
  cookie_is_recall_session, require_auth,
}
use newell_ai.Worker.Db.{WorkerDb}
use newell_ai.Worker.Http.{WorkerEnv, HttpRequest}
use newell_ai.Worker.Local.{PairReply, handle_dev_pair}
use newell_ai.Worker.Router.{
  let_in, guarded, guarded_read, handle_ingest_turns, handle_create_artifact, decoded,
  handle_endpoint, or_session, or_pair, route_v1,
}
use newell_ai.Worker.Router.State.{Reply, WorkerState, Draw, Platform}
use newell_ai.Worker.Router.Paths.{
  Endpoint, to_turns, to_conversations, to_search, to_status, to_artifacts, nowhere, to_content,
  to_artifact, to_conversation_artifacts, to_conversation_turns, endpoint_of,
}
use newell_ai.Worker.Router.Laws.{granted, route, require_auth-granted}

-- The same process with another database and storage.
abbrev pub with_data : {S : Type 0} → WorkerDb → S → WorkerState S → WorkerState S
with_data db store st = record st { db = db; store = store }

-- What the guards relate, and equal refusals, each route relates.
module _ {S : Type 0} (platform : Platform S) (env : WorkerEnv) (draw : Draw) (req : HttpRequest)
    (st st' : WorkerState S) (R : (x y : Outcome Reply × WorkerState S) → Type 0)
    (refusing : (e : ErrorCode) → R (thrown e, st) (thrown e, st'))
    (writing : (method : Text) (next next' : WorkerState S → Outcome Reply × WorkerState S)
      → R
          (guarded platform env draw method capture_full req st next)
          (guarded platform env draw method capture_full req st' next'))
    (reads : (f f' : WorkerState S → Outcome Reply)
      → R
          (guarded_read platform env draw req st f)
          (guarded_read platform env draw req st' f')) where
  decoded-both :
      (o : Outcome Text) (next next' : Text → Outcome Reply × WorkerState S)
      → ((id : Text) → R (next id) (next' id))
      → R (decoded platform env draw o st next) (decoded platform env draw o st' next')
  decoded-both (thrown e) next next' h = refusing e
  decoded-both (returned id) next next' h = h id

  if-both :
      (b : Bool) (x y x' y' : Outcome Reply × WorkerState S)
      → R x x'
      → R y y'
      → R (if b then x else y) (if b then x' else y')
  if-both true x y x' y' h k = h
  if-both false x y x' y' h k = k

  handle_endpoint-both :
      (e : Endpoint)
      → R (handle_endpoint platform env draw e req st) (handle_endpoint platform env draw e req st')
  unfolding handle_endpoint handle_ingest_turns handle_create_artifact
  handle_endpoint-both to_turns = writing _ _ _
  handle_endpoint-both to_conversations = reads _ _
  handle_endpoint-both to_search = reads _ _
  handle_endpoint-both to_status = reads _ _
  handle_endpoint-both to_artifacts = writing _ _ _
  handle_endpoint-both nowhere = refusing _
  handle_endpoint-both (to_content raw) =
      decoded-both (platform.decode raw) _ _
        (λ id. if-both _ _ _ _ _ (writing _ _ _) (if-both _ _ _ _ _ (reads _ _) (refusing _)))
  handle_endpoint-both (to_artifact raw) = decoded-both (platform.decode raw) _ _ (λ id. reads _ _)
  handle_endpoint-both (to_conversation_artifacts raw) =
      decoded-both (platform.decode raw) _ _ (λ id. reads _ _)
  handle_endpoint-both (to_conversation_turns raw) =
      decoded-both (platform.decode raw) _ _ (λ id. reads _ _)

module _ {S : Type 0} (platform : Platform S) (env : WorkerEnv) (draw : Draw) (db : WorkerDb)
    (store : S) where
  -- The same answer and the same process, and the other database and storage as they were.
  abbrev pub IsBlind : (x y : Outcome Reply × WorkerState S) → Type 0
  IsBlind x y = y ≡ (x.0, with_data db store x.1)

  let_in-IsBlind :
      (o : Outcome AuthScope × List SessionRecord) (st : WorkerState S)
      (next next' : WorkerState S → Outcome Reply × WorkerState S)
      → granted o.0 ≡ false
      → IsBlind
          (let_in platform env draw o st next)
          (let_in platform env draw o (with_data db store st) next')
  let_in-IsBlind (thrown e, rest) st next next' h = refl
  let_in-IsBlind (returned scope, rest) st next next' h = cc

  module _ (req : HttpRequest) (st : WorkerState S)
      (outside : (token : Text)
        → env.capture_api_token ≡ some token
        → bearer_is_capture_token platform.digest platform.hash req.headers token ≡ false)
      (cookie : (cookie_is_recall_session platform.digest platform.hash req.headers draw.now_ms
          st.sessions).0
        ≡ false) where
    guarded-IsBlind :
        (method : Text) (required : AuthScope)
        (next next' : WorkerState S → Outcome Reply × WorkerState S)
        → IsBlind
            (guarded platform env draw method required req st next)
            (guarded platform env draw method required req (with_data db store st) next')
    unfolding guarded
    guarded-IsBlind method required next next' = elim (Bool-cases (text_eq req.method method)) [
      | inr e ↦ rw e refl
      | inl e ↦ rw e (
          let_in-IsBlind
            (require_auth platform.digest platform.hash req.headers env.capture_api_token required
              draw.now_ms st.sessions)
            st next next'
            (require_auth-granted platform.digest platform.hash env req draw.now_ms st.sessions
              outside required (λ e. cookie)))
    ]

    guarded_read-IsBlind :
        (f f' : WorkerState S → Outcome Reply)
        → IsBlind
            (guarded_read platform env draw req st f)
            (guarded_read platform env draw req (with_data db store st) f')
    unfolding guarded_read
    guarded_read-IsBlind f f' = guarded-IsBlind (codes "GET") recall_read _ _

    handle_endpoint-IsBlind :
        (e : Endpoint)
        → IsBlind
            (handle_endpoint platform env draw e req st)
            (handle_endpoint platform env draw e req (with_data db store st))
    handle_endpoint-IsBlind =
        handle_endpoint-both platform env draw req st (with_data db store st) IsBlind (λ e. refl)
          (λ method next next'. guarded-IsBlind method capture_full next next') guarded_read-IsBlind

    or_session-IsBlind :
        (o : Option (Outcome Text × List SessionRecord))
        → IsBlind
            (or_session platform env draw o req st)
            (or_session platform env draw o req (with_data db store st))
    or_session-IsBlind none = handle_endpoint-IsBlind (endpoint_of req.pathname)
    or_session-IsBlind (some (r, rest)) = refl

    or_pair-IsBlind :
        (o : Option (Outcome PairReply × Bool))
        → IsBlind
            (or_pair platform env draw o req st)
            (or_pair platform env draw o req (with_data db store st))
    or_pair-IsBlind none = or_session-IsBlind _
    or_pair-IsBlind (some (r, consumed)) = refl

    -- A request that has neither the configured token nor the cookie of a valid session gets the
    -- same answer whatever the database and the storage hold, an error as well as any other, with
    -- the same effect on the sessions and the pairing, and changes neither of the two.
    pub route_v1-IsBlind :
        IsBlind
          (route platform env draw req st)
          (route platform env draw req (with_data db store st))
    unfolding route_v1
    route_v1-IsBlind = or_pair-IsBlind (handle_dev_pair env req st.pairing_consumed)
