-- ===== src/Worker/Auth/Laws.antt =====
-- Who is let in.
use newell_ai.Common.{
  ℕ, ◌+◌, ◌*◌, ◌<◌, Text, Option, none, some, Bool, true, false, List, [], ◌∷◌, ◌≡◌, ◌≢◌, ◌↔◌, refl,
  sym, ap, ◌∙◌, arith, if◌then◌else◌,
}
use newell_ai.Common.Keys.{text_order, cmp_refl}
use newell_ai.Idb.{put, get}
use newell_ai.Idb.Laws.{get-put, get-delete}
use newell_ai.Worker.Artifacts.{Outcome, returned, thrown, unauthorized}
use newell_ai.Worker.Auth.{
  AuthScope, capture_full, recall_read, recall_session_max_age_sec, recall_session_cookie,
  SessionRecord, session_key, AuthHeaders, create_recall_session, check_session,
  recall_session_valid, revoke_recall_session, timing_safe_equal_string, presented, matches_token,
  bearer_is_capture_token, session_valid, cookie_is_recall_session, authorize, require_auth,
  parse_cookie_value,
}

module _ (digest : Text → List ℕ) (hash : Text → Text) where
  -- The grounds on which a scope is granted.
  abbrev pub IsGranted :
      AuthHeaders → Text → AuthScope → ℕ → List SessionRecord → AuthScope → Type 0
  IsGranted headers token required now sessions capture_full =
      (p : Text) × (presented digest hash headers.authorization ≡ some p)
      × (timing_safe_equal_string digest hash p token ≡ true)
  IsGranted headers token required now sessions recall_read =
      (required ≡ recall_read)
      × ((raw : Text) × (parse_cookie_value headers.cookie recall_session_cookie ≡ some raw)
          × ((r : SessionRecord) × (get session_key (hash raw) sessions ≡ some r)
              × (now < r.expires_at_ms)))

  bearer-presented :
      (headers : AuthHeaders) (token : Text)
      → bearer_is_capture_token digest hash headers token ≡ true
      → (p : Text) × (presented digest hash headers.authorization ≡ some p)
        × (timing_safe_equal_string digest hash p token ≡ true)
  unfolding bearer_is_capture_token
  bearer-presented headers token = from (presented digest hash headers.authorization)
    where
      from :
          (o : Option Text)
          → matches_token digest hash token o ≡ true
          → (p : Text) × (o ≡ some p) × (timing_safe_equal_string digest hash p token ≡ true)
      from none h = cc
      from (some p) h = (p, refl, h)

  long_token :
      (c : ℕ) (raw : Text) (now : ℕ) (sessions : List SessionRecord)
      → recall_session_valid digest hash (c ∷ raw) now sessions
        ≡ check_session digest hash
            (hash (c ∷ raw))
            now
            sessions
            (get session_key (hash (c ∷ raw)) sessions)
  unfolding recall_session_valid
  long_token c raw now sessions = ground arith

  recall_session_valid-record :
      (raw : Text) (now : ℕ) (sessions : List SessionRecord)
      → (recall_session_valid digest hash raw now sessions).0 ≡ true
      → (r : SessionRecord) × (get session_key (hash raw) sessions ≡ some r)
        × (now < r.expires_at_ms)
  unfolding recall_session_valid
  recall_session_valid-record [] now sessions h = cc
  recall_session_valid-record (c ∷ raw) now sessions h =
      from (get session_key (hash (c ∷ raw)) sessions)
        (ap (λ (x : Bool × List SessionRecord). x.0) (sym (long_token c raw now sessions)) ∙ h)
    where
      from :
          (o : Option SessionRecord)
          → (check_session digest hash (hash (c ∷ raw)) now sessions o).0 ≡ true
          → (r : SessionRecord) × (o ≡ some r) × (now < r.expires_at_ms)
      from none h = cc
      from (some r) h = (r, refl, ground (arith, h))

  session-IsGranted :
      (headers : AuthHeaders) (token : Text) (now : ℕ) (sessions : List SessionRecord)
      → (cookie_is_recall_session digest hash headers now sessions).0 ≡ true
      → IsGranted headers token recall_read now sessions recall_read
  unfolding cookie_is_recall_session
  session-IsGranted headers token now sessions h =
      from (parse_cookie_value headers.cookie recall_session_cookie) refl h
    where
      from :
          (o : Option Text)
          → parse_cookie_value headers.cookie recall_session_cookie ≡ o
          → (session_valid digest hash o now sessions).0 ≡ true
          → IsGranted headers token recall_read now sessions recall_read
      from none e h = cc
      from (some raw) e h = (refl, (raw, e, recall_session_valid-record raw now sessions h))

  authorize-IsGranted :
      (headers : AuthHeaders) (token : Text) (required : AuthScope) (now : ℕ)
      (sessions : List SessionRecord) (scope : AuthScope)
      → (authorize digest hash headers token required now sessions).0 ≡ returned scope
      → IsGranted headers token required now sessions scope
  unfolding authorize
  authorize-IsGranted headers token capture_full now sessions capture_full h =
      bearer-presented headers token (ground (arith, h))
  authorize-IsGranted headers token capture_full now sessions recall_read h =
      elim (never_recall (bearer_is_capture_token digest hash headers token)
        (ground (arith, h))) [ ]
    where
      never_recall :
          (b : Bool)
          → (if b then returned capture_full else thrown unauthorized) ≡ returned recall_read
          → ⊥
      never_recall true h = cc
      never_recall false h = cc
  authorize-IsGranted headers token recall_read now sessions capture_full h =
      bearer-presented headers token (ground (arith, h))
  authorize-IsGranted headers token recall_read now sessions recall_read h =
      session-IsGranted headers token now sessions (ground (arith, h))

  pub long_configured :
      (headers : AuthHeaders) (c : ℕ) (token : Text) (required : AuthScope) (now : ℕ)
      (sessions : List SessionRecord)
      → require_auth digest hash headers (some (c ∷ token)) required now sessions
        ≡ authorize digest hash headers (c ∷ token) required now sessions
  unfolding require_auth
  long_configured headers c token required now sessions = ground arith

  -- `requireAuth` grants full access only for a bearer token whose digest is that of the configured
  -- token, and read access only where it is enough and a session cookie names a session that has
  -- not expired. Without a configured token, or with an empty one, it grants nothing.
  pub require_auth-IsGranted :
      (headers : AuthHeaders) (configured : Option Text) (required : AuthScope) (now : ℕ)
      (sessions : List SessionRecord) (scope : AuthScope)
      → (require_auth digest hash headers configured required now sessions).0 ≡ returned scope
      → (token : Text) × (configured ≡ some token)
        × (token ≢ [])
        × IsGranted headers token required now sessions scope
  unfolding require_auth
  require_auth-IsGranted headers none required now sessions scope h = cc
  require_auth-IsGranted headers (some []) required now sessions scope h = cc
  require_auth-IsGranted headers (some (c ∷ token)) required now sessions scope h =
      let same = long_configured headers c token required now sessions in
      (
        c ∷ token,
        refl,
        λ e. cc,
        authorize-IsGranted headers (c ∷ token) required now sessions scope
            (ap (λ (x : Outcome AuthScope × List SessionRecord). x.0) (sym same) ∙ h),
      )

  -- A new session is valid for twelve hours and no longer, and no more once it is revoked.
  pub recall_session_valid_iff :
      (raw : Text) (created now : ℕ) (sessions : List SessionRecord)
      → raw ≢ []
      → let sessions' = create_recall_session digest hash raw created sessions in
        (((recall_session_valid digest hash raw now sessions').0 ≡ true)
          ↔ (now < created + recall_session_max_age_sec * 1000))
        × ((recall_session_valid digest hash raw now
              (revoke_recall_session digest hash raw sessions')).0
            ≡ false)
  unfolding recall_session_valid create_recall_session revoke_recall_session
  recall_session_valid_iff [] created now sessions filled = elim (filled refl) [ ]
  recall_session_valid_iff (c ∷ raw) created now sessions filled =
      let r : SessionRecord = record {
        hash = hash (c ∷ raw);
        expires_at_ms = created + recall_session_max_age_sec * 1000;
      } in
      let there = get-put session_key (hash (c ∷ raw)) r sessions in
      let gone =
        get-delete session_key (hash (c ∷ raw)) (hash (c ∷ raw)) (put session_key r sessions) in
      let self = cmp_refl (hash (c ∷ raw)) in
      (ground (arith, there, self), ground (arith, gone, self))
