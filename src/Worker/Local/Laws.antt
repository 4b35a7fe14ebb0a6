-- ===== src/Worker/Local/Laws.antt =====
-- To whom the token is handed out, and how often.
use newell_ai.Common.{
  ℕ, ◌+◌, ◌≤◌, Text, codes, text_eq, text_eq_iff, Option, none, some, Bool, true, false, List, [],
  ◌∷◌, ◌≡◌, ◌≢◌, ap, ◌∙◌, inl, inr, Bool-cases, arith, if◌then◌else◌, count_if, trim,
}
use newell_ai.Worker.Artifacts.{Outcome, returned, thrown, forbidden, method_not_allowed, not_found}
use newell_ai.Worker.Http.{WorkerEnv, HttpRequest}
use newell_ai.Worker.Local.{
  PairReply, preflight, handed_out, hand_out, answer_pair, pair_from, dev_pair, answer_pairs,
  is_text, pairing_enabled, is_loopback_host, is_extension_origin, expected_origin, request_origin,
}

abbrev pub is_handed_out : Outcome PairReply → Bool
is_handed_out (thrown e) = false
is_handed_out (returned (preflight origin)) = false
is_handed_out (returned (handed_out token origin)) = true

-- How many tokens may still be handed out.
abbrev pub budget : Bool → ℕ
budget consumed = if consumed then 0 else 1

abbrev IsSpent : Bool → Outcome PairReply × Bool → Type 0
IsSpent consumed (answer, consumed') =
    (if is_handed_out answer then 1 else 0) + budget consumed' ≤ budget consumed

thrown-IsSpent : (consumed : Bool) → 0 + budget consumed ≤ budget consumed
thrown-IsSpent consumed = omega arith

hand_out-IsSpent : (o : Option Text) (allowed : Text) → IsSpent false (hand_out o allowed false)
unfolding hand_out
hand_out-IsSpent none allowed = omega arith
hand_out-IsSpent (some []) allowed = omega arith
hand_out-IsSpent (some (c ∷ s)) allowed = omega arith

answer_pair-IsSpent :
    (env : WorkerEnv) (req : HttpRequest) (allowed : Text) (consumed : Bool)
    → IsSpent consumed (answer_pair env req allowed consumed)
unfolding answer_pair
answer_pair-IsSpent env req allowed consumed =
    elim (Bool-cases (text_eq req.method (codes "OPTIONS"))) [
      | inl o ↦ rw o (thrown-IsSpent consumed)
      | inr o ↦ elim (Bool-cases (text_eq req.method (codes "POST"))) [
        | inr m ↦ rw (o, m) (thrown-IsSpent consumed)
        | inl m ↦ rw (o, m) (from consumed)
      ]
    ]
  where
    from :
        (b : Bool)
        → IsSpent b (if b then (thrown forbidden, b) else hand_out env.capture_api_token allowed b)
    from true = omega arith
    from false = hand_out-IsSpent env.capture_api_token allowed

pair_from-IsSpent :
    (env : WorkerEnv) (req : HttpRequest) (o : Option Text) (consumed : Bool)
    → IsSpent consumed (pair_from env req o consumed)
unfolding pair_from
pair_from-IsSpent env req none consumed = thrown-IsSpent consumed
pair_from-IsSpent env req (some allowed) consumed =
    elim (Bool-cases (is_text allowed (request_origin req.origin))) [
      | inl e ↦ rw e (answer_pair-IsSpent env req allowed consumed)
      | inr e ↦ rw e (thrown-IsSpent consumed)
    ]

dev_pair-IsSpent :
    (env : WorkerEnv) (req : HttpRequest) (consumed : Bool)
    → IsSpent consumed (dev_pair env req consumed)
unfolding dev_pair
dev_pair-IsSpent env req consumed = elim (Bool-cases (pairing_enabled env)) [
  | inr e ↦ rw e (thrown-IsSpent consumed)
  | inl e ↦ elim (Bool-cases (is_loopback_host req.hostname)) [
    | inr l ↦ rw (e, l) (thrown-IsSpent consumed)
    | inl l ↦
        rw (e, l)
          (pair_from-IsSpent env req (expected_origin env.pairing_extension_origin) consumed)
  ]
]

-- Whatever requests arrive at the pairing route, and in whatever order, the token is handed out at
-- most once, and no more when it has been before.
pub answer_pairs_once :
    (env : WorkerEnv) (consumed : Bool) (reqs : List HttpRequest)
    → count_if is_handed_out (answer_pairs env consumed reqs) ≤ (if consumed then 0 else 1)
unfolding answer_pairs count_if
answer_pairs_once env consumed [] = omega arith
answer_pairs_once env consumed (req ∷ reqs) =
    let first = dev_pair-IsSpent env req consumed in
    let rest = answer_pairs_once env (dev_pair env req consumed).1 reqs in
    omega (arith, first, rest)

-- What holds when the token is handed out to an origin.
pub record IsPaired (env : WorkerEnv) (req : HttpRequest) (token origin : Text) : Type 0 where
  pub configured : env.capture_api_token ≡ some token
  pub filled : token ≢ []
  pub enabled : env.allow_local_pairing ≡ some (codes "true")
  pub loopback : is_loopback_host req.hostname ≡ true
  pub requested : req.origin ≡ some origin
  pub extension : is_extension_origin origin ≡ true
  pub allowed : (raw : Text) × (env.pairing_extension_origin ≡ some raw) × (trim raw ≡ origin)

is_text-some : (s : Text) (o : Option Text) → is_text s o ≡ true → o ≡ some s
is_text-some s none e = ground arith
is_text-some s (some t) e = ap some ((text_eq_iff t s).0 e)

request_origin-some :
    (o : Option Text) (origin : Text) → request_origin o ≡ some origin → o ≡ some origin
unfolding request_origin
request_origin-some none origin e = ground arith
request_origin-some (some t) origin e = ground arith

expected_origin-some :
    (o : Option Text) (origin : Text)
    → expected_origin o ≡ some origin
    → is_extension_origin origin ≡ true
unfolding expected_origin
expected_origin-some none origin e = ground arith
expected_origin-some (some raw) origin e = elim (Bool-cases (is_extension_origin (trim raw))) [
  | inl h ↦ let same : some (trim raw) ≡ some origin = rw h at e in cc
  | inr h ↦ let bad : none ≡ some origin = rw h at e in ground arith
]

expected_origin-raw :
    (o : Option Text) (origin : Text)
    → expected_origin o ≡ some origin
    → (raw : Text) × (o ≡ some raw) × (trim raw ≡ origin)
unfolding expected_origin
expected_origin-raw none origin e = cc
expected_origin-raw (some raw) origin e = elim (Bool-cases (is_extension_origin (trim raw))) [
  | inl h ↦ let same : some (trim raw) ≡ some origin = rw h at e in (raw, cc, cc)
  | inr h ↦ let bad : none ≡ some origin = rw h at e in cc
]

hand_out-some :
    (o : Option Text) (allowed : Text) (consumed : Bool) (token origin : Text)
    → (hand_out o allowed consumed).0 ≡ returned (handed_out token origin)
    → (o ≡ some token) × (token ≢ []) × (allowed ≡ origin)
unfolding hand_out
hand_out-some none allowed consumed token origin e = ground arith
hand_out-some (some []) allowed consumed token origin e = ground arith
hand_out-some (some (c ∷ s)) allowed consumed token origin e = (cc, λ f. cc, cc)

answer_pair-some :
    (env : WorkerEnv) (req : HttpRequest) (allowed : Text) (consumed : Bool) (token origin : Text)
    → (answer_pair env req allowed consumed).0 ≡ returned (handed_out token origin)
    → (env.capture_api_token ≡ some token) × (token ≢ []) × (allowed ≡ origin)
unfolding answer_pair
answer_pair-some env req allowed consumed token origin e =
    elim (Bool-cases (text_eq req.method (codes "OPTIONS"))) [
      | inl o ↦
          let bad : returned (preflight allowed) ≡ returned (handed_out token origin) = rw o at e in
          cc
      | inr o ↦ elim (Bool-cases (text_eq req.method (codes "POST"))) [
        | inr m ↦
            let bad : thrown method_not_allowed ≡ returned (handed_out token origin) =
              rw (o, m) at e in
            cc
        | inl m ↦ from consumed (rw (o, m) at e)
      ]
    ]
  where
    from :
        (b : Bool)
        → (if b then (thrown forbidden, b) else hand_out env.capture_api_token allowed b).0
          ≡ returned (handed_out token origin)
        → (env.capture_api_token ≡ some token) × (token ≢ []) × (allowed ≡ origin)
    from true h = cc
    from false h = hand_out-some env.capture_api_token allowed false token origin h

pair_from-some :
    (env : WorkerEnv) (req : HttpRequest) (o : Option Text) (consumed : Bool) (token origin : Text)
    → (pair_from env req o consumed).0 ≡ returned (handed_out token origin)
    → (env.capture_api_token ≡ some token)
      × (token ≢ [])
      × (o ≡ some origin)
      × (req.origin ≡ some origin)
unfolding pair_from
pair_from-some env req none consumed token origin e = cc
pair_from-some env req (some allowed) consumed token origin e =
    elim (Bool-cases (is_text allowed (request_origin req.origin))) [
      | inl h ↦
          let (there, filled, same) =
            answer_pair-some env req allowed consumed token origin (rw h at e) in
          let from : req.origin ≡ some allowed =
            request_origin-some req.origin allowed (is_text-some allowed _ h) in
          (there, filled, ap some same, from ∙ ap some same)
      | inr h ↦ let bad : thrown forbidden ≡ returned (handed_out token origin) = rw h at e in cc
    ]

-- The token is handed out only by a worker with pairing enabled, on a loopback host, to exactly the
-- origin that the environment configures, trimmed, which is that of an extension, and it is the
-- configured token.
pub dev_pair-IsPaired :
    (env : WorkerEnv) (req : HttpRequest) (consumed : Bool) (token origin : Text)
    → (dev_pair env req consumed).0 ≡ returned (handed_out token origin)
    → IsPaired env req token origin
unfolding dev_pair pairing_enabled
dev_pair-IsPaired env req consumed token origin e =
    elim (Bool-cases (is_text (codes "true") env.allow_local_pairing)) [
      | inr p ↦ let bad : thrown not_found ≡ returned (handed_out token origin) = rw p at e in cc
      | inl p ↦ elim (Bool-cases (is_loopback_host req.hostname)) [
        | inr l ↦
            let bad : thrown not_found ≡ returned (handed_out token origin) = rw (p, l) at e in cc
        | inl l ↦
            let (there, filled, expected, requested) =
              pair_from-some env req (expected_origin env.pairing_extension_origin) consumed token
                origin (rw (p, l) at e) in
            record {
              configured = there;
              filled = filled;
              enabled = is_text-some (codes "true") env.allow_local_pairing p;
              loopback = l;
              requested = requested;
              extension = expected_origin-some env.pairing_extension_origin origin expected;
              allowed = expected_origin-raw env.pairing_extension_origin origin expected;
            }
      ]
    ]
