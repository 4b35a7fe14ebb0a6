-- ===== src/Worker/Auth/Tests.antt =====
-- Runs of the authentication on small data, and each theorem at a concrete input.
use newell_ai.Common.{
  ℕ, ◌+◌, ◌*◌, ◌<◌, Text, codes, text_eq, any, trim, none, some, true, false, List, [], ◌∷◌, ◌≡◌,
  ◌≢◌, ◌↔◌, refl, arith,
}
use newell_ai.Common.Keys.{text_order, text_cmp}
use newell_ai.Idb.{get}
use newell_ai.Worker.Artifacts.{returned}
use newell_ai.Worker.Auth.{
  recall_read, parse_bearer_token, parse_cookie_value, timing_safe_equal_bytes,
  recall_session_max_age_sec, SessionRecord, AuthHeaders, create_recall_session,
  recall_session_valid, revoke_recall_session, require_auth,
}
use newell_ai.Worker.Auth.Timing.{IsBytes, timing_safe_equal_bytes_iff}
use newell_ai.Worker.Auth.Laws.{IsGranted, require_auth-IsGranted, recall_session_valid_iff}

abbrev digest : Text → List ℕ
digest s = s

abbrev hash : Text → Text
hash s = s

abbrev small_bytes : List ℕ
small_bytes = 1 ∷ 255 ∷ []

small_bytes-IsBytes : IsBytes small_bytes
small_bytes-IsBytes = (omega arith, (omega arith, tt))

timing_safe_equal_bytes_iff_example :
    (timing_safe_equal_bytes small_bytes small_bytes ≡ true) ↔ (small_bytes ≡ small_bytes)
timing_safe_equal_bytes_iff_example =
    timing_safe_equal_bytes_iff small_bytes small_bytes small_bytes-IsBytes small_bytes-IsBytes

bearer_parses : parse_bearer_token (codes "  BEARER   a b ") ≡ some (codes "a b")
unfolding parse_bearer_token any trim codes text_eq
bearer_parses = refl

two_bearers : parse_bearer_token (codes "Bearer a, Bearer b") ≡ none
unfolding parse_bearer_token any trim codes
two_bearers = refl

cookie_parses :
    parse_cookie_value (some (codes "x; =1; k = v=w ; k=z")) (codes "k") ≡ some (codes "v=w")
unfolding parse_cookie_value codes trim text_eq
cookie_parses = refl

abbrev headers : AuthHeaders
headers = record { authorization = none; cookie = some (codes "recall_session=r") }

abbrev sessions : List SessionRecord
sessions = record { hash = codes "r"; expires_at_ms = 9 } ∷ []

session_lets_in :
    (require_auth digest hash headers (some (codes "t")) recall_read 5 sessions).0
    ≡ returned recall_read
unfolding require_auth codes trim text_eq get text_cmp
session_lets_in = refl

require_auth-IsGranted_example :
    (token : Text) × (some (codes "t") ≡ some token)
    × (token ≢ [])
    × IsGranted digest hash headers token recall_read 5 sessions recall_read
require_auth-IsGranted_example =
    require_auth-IsGranted digest hash headers (some (codes "t")) recall_read 5 sessions recall_read
      session_lets_in

r_filled : codes "r" ≢ []
unfolding codes
r_filled = λ e. cc

recall_session_valid_iff_example :
    let sessions' = create_recall_session digest hash (codes "r") 4 [] in
    (((recall_session_valid digest hash (codes "r") 5 sessions').0 ≡ true)
      ↔ (5 < 4 + recall_session_max_age_sec * 1000))
    × ((recall_session_valid digest hash
          (codes "r")
          5
          (revoke_recall_session digest hash (codes "r") sessions')).0
        ≡ false)
recall_session_valid_iff_example = recall_session_valid_iff digest hash (codes "r") 4 5 [] r_filled
