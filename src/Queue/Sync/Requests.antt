-- ===== src/Queue/Sync/Requests.antt =====
-- What `syncOnce` sends, and what it does without a usable token.
use newell_ai.Common.{
  ℕ, suc, ◌≤◌, Text, codes, none, some, ◌≡◌, refl, ap, arith, List, [], ◌∷◌, ◌++◌, map, length,
  Ordering,
}
use newell_ai.Token.{TokenValidation, valid, invalid, validate_capture_token}
use newell_ai.Token.Laws.{IsPrintable, validate_capture_token_iff}
use newell_ai.Queue.Types.{QueueEnvelope, pending, max_batch_turns}
use newell_ai.Queue.Db.{QueueDb}
use newell_ai.Queue.Operations.{to_auth_blocked, set_status}
use newell_ai.Queue.Recovery.{IsQueueOrdered, count_state, rewritten, hold_pending_lem}
use newell_ai.Queue.Sync.Selection.{select_batch-IsBatch}
use newell_ai.Queue.Sync.Once.{
  SyncConfig, HttpRequest, FetchResult, upload_request, hold_for_token, sync_batch, sync_checked,
  sync_once,
}

length-map : {A B : Type 0} (f : A → B) (xs : List A) → length (map f xs) ≡ length xs
length-map f [] = refl
length-map f (x ∷ xs) = ap suc (length-map f xs)

-- A header that `fetch` accepts, and a body that the server can take.
pub record IsSafeRequest (request : HttpRequest) : Type 0 where
  pub token : Text
  pub printable : IsPrintable token
  pub header : request.authorization ≡ codes "Bearer " ++ token
  pub filled : 1 ≤ length request.body.turns
  pub bounded : length request.body.turns ≤ max_batch_turns

module _ (locale_compare : Text → Text → Ordering) (fetch : HttpRequest → FetchResult) (now : ℕ)
    (others : QueueDb → QueueDb) (db : QueueDb) (config : SyncConfig) where
  batch_sent :
      (token : Text) (db' : QueueDb) (batch : List QueueEnvelope) (request : HttpRequest)
      → IsPrintable token
      → length batch ≤ max_batch_turns
      → (sync_batch locale_compare fetch now others
          (record config { token = token })
          db'
          batch).sent
        ≡ some request
      → IsSafeRequest request
  unfolding sync_batch upload_request
  batch_sent token db' [] request plain small h = cc
  batch_sent token db' (e ∷ batch) request plain small h =
      let same : upload_request (record config { token = token }) e batch ≡ request = cc in
      rw (← same) (record {
        token = token;
        printable = plain;
        header = refl;
        filled = omega arith;
        bounded = rw (length-map (λ (x : QueueEnvelope). x.turn) batch) small;
      })

  checked_sent :
      (v : TokenValidation) (request : HttpRequest)
      → validate_capture_token config.token ≡ v
      → (sync_checked locale_compare fetch now others v config db).sent ≡ some request
      → IsSafeRequest request
  unfolding sync_checked hold_for_token
  checked_sent (invalid m) request e h = cc
  checked_sent (valid token) request e h =
      batch_sent token _ _ request ((validate_capture_token_iff config.token token).0 e).2
        (select_batch-IsBatch now db.queue locale_compare).1.small h

  -- Every request that `syncOnce` sends has a bearer header of printable ASCII and between 1 and
  -- 25 turns.
  pub sync_once-IsSafeRequest :
      (request : HttpRequest)
      → (sync_once locale_compare fetch now others db config).sent ≡ some request
      → IsSafeRequest request
  unfolding sync_once
  sync_once-IsSafeRequest request h =
      checked_sent (validate_capture_token config.token) request refl h

  -- With a token that is rejected, `syncOnce` sends nothing, holds every pending record with its
  -- attempts unchanged, reports their number, and changes no other record and no dead letter.
  pub sync_once-invalid :
      (message : Text)
      → validate_capture_token config.token ≡ invalid message
      → IsQueueOrdered db.queue
      → let r = sync_once locale_compare fetch now others db config in
        (r.sent ≡ none)
        × (r.db.queue ≡ map (rewritten pending to_auth_blocked) db.queue)
        × (r.outcome.auth_blocked ≡ count_state pending db.queue)
        × (r.db.dead ≡ db.dead)
  unfolding sync_once
  sync_once-invalid message bad h = rw bad (
      unfold sync_checked hold_for_token set_status in
      (let e = hold_pending_lem db h in rw e (refl, refl, refl, refl)))
