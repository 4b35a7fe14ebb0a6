-- ===== src/Worker/Validate/Upload/Request.antt =====
-- Exactly which bodies `parseUploadRequest` accepts, and what it answers to the others.
use newell_ai.Common.{
  codes, Option, none, some, true, false, List, [], ◌∷◌, ◌≡◌, ◌≢◌, refl, sym, ◌∙◌, subst, ◌↔◌, inl,
  inr, Bool-cases, arith,
}
use newell_ai.Contracts.{TurnPayload, ConversationMetadata, CaptureMetadata, UploadRequest}
use newell_ai.Value.{
  Value, Items, undefined, null, boolean, number, nan, string, array, object, array_buffer,
  byte_array, elements, field, is_plain_object,
}
use newell_ai.Worker.Validate.{ValidationIssue, well_formed, malformed, joined}
use newell_ai.Worker.Validate.Laws.{joined-nil}
use newell_ai.Worker.Validate.Upload.{
  parse_conversation, parse_capture, array_turns, checked_turns, upload_of, parse_upload_request,
}
use newell_ai.Worker.Validate.Upload.Turns.{AreTurns, parse_turns_of_AreTurns, parse_turns-AreTurns}
use newell_ai.Worker.Validate.Upload.Laws.{
  IsConversation, IsCapture, parse_conversation_of_IsConversation,
  parse_conversation-IsConversation, parse_capture_of_IsCapture, parse_capture-IsCapture,
}

-- The value is a non-empty array that spells the turns.
abbrev pub IsTurnArray : Value → List TurnPayload → Type 0
IsTurnArray v [] = ⊥
IsTurnArray v (t ∷ ts) = (vs : Items) × (v ≡ array vs) × AreTurns (elements vs) (t ∷ ts)

pub record IsUpload (input : Value) (r : UploadRequest) : Type 0 where
  pub object : is_plain_object input ≡ true
  pub conversation : IsConversation (field (codes "conversation") input) r.conversation
  pub capture : IsCapture (field (codes "capture") input) r.capture
  pub turns : IsTurnArray (field (codes "turns") input) r.turns

array_turns_of_AreTurns :
    (vs : List Value) (t : TurnPayload) (ts : List TurnPayload)
    → AreTurns vs (t ∷ ts)
    → array_turns vs ≡ (t ∷ ts, [])
unfolding array_turns
array_turns_of_AreTurns [] t ts h = elim h [ ]
array_turns_of_AreTurns (v ∷ vs) t ts h = parse_turns_of_AreTurns 0 (v ∷ vs) (t ∷ ts) h

checked_turns_of_IsTurnArray :
    (v : Value) (ts : List TurnPayload) → IsTurnArray v ts → checked_turns v ≡ (ts, [])
unfolding checked_turns
checked_turns_of_IsTurnArray v [] h = elim h [ ]
checked_turns_of_IsTurnArray v (t ∷ ts) (vs, e, h) =
    rw e (array_turns_of_AreTurns (elements vs) t ts h)

array_turns_issues :
    (vs : List Value)
    → (array_turns vs).1 ≡ []
    → AreTurns vs (array_turns vs).0
      × ((t : TurnPayload) × (ts : List TurnPayload) × ((array_turns vs).0 ≡ t ∷ ts))
unfolding array_turns
array_turns_issues [] h = ground arith
array_turns_issues (v ∷ vs) h = let are = parse_turns-AreTurns 0 (v ∷ vs) h in (are, filled _ are)
  where
    filled :
        (ts : List TurnPayload)
        → AreTurns (v ∷ vs) ts
        → (u : TurnPayload) × (us : List TurnPayload) × (ts ≡ u ∷ us)
    filled [] k = elim k [ ]
    filled (t ∷ ts) k = (t, ts, refl)

checked_turns-IsTurnArray :
    (v : Value) → (checked_turns v).1 ≡ [] → IsTurnArray v (checked_turns v).0
unfolding checked_turns
checked_turns-IsTurnArray (array vs) h =
    let (are, (t, ts, e)) = array_turns_issues (elements vs) h in rw e (vs, refl, rw e at are)
checked_turns-IsTurnArray undefined h = ground arith
checked_turns-IsTurnArray null h = ground arith
checked_turns-IsTurnArray (boolean b) h = ground arith
checked_turns-IsTurnArray (number n) h = ground arith
checked_turns-IsTurnArray nan h = ground arith
checked_turns-IsTurnArray (string s) h = ground arith
checked_turns-IsTurnArray (object ps) h = ground arith
checked_turns-IsTurnArray (array_buffer b) h = ground arith
checked_turns-IsTurnArray (byte_array b) h = ground arith

upload_of_well_formed :
    (issues : List ValidationIssue) (c : Option ConversationMetadata) (k : Option CaptureMetadata)
    (ts : List TurnPayload) (r : UploadRequest)
    → upload_of issues c k ts ≡ well_formed r
    → (issues ≡ []) × (c ≡ some r.conversation) × (k ≡ some r.capture) × (ts ≡ r.turns)
unfolding upload_of
upload_of_well_formed [] (some c) (some k) (t ∷ ts) r h =
    (refl, ground (arith, h), ground (arith, h), ground (arith, h))
upload_of_well_formed [] (some c) (some k) [] r h = ground arith
upload_of_well_formed [] (some c) none ts r h = ground arith
upload_of_well_formed [] none k ts r h = ground arith
upload_of_well_formed (i ∷ is) c k ts r h = ground arith

upload_of_malformed :
    (issues later : List ValidationIssue) (c : Option ConversationMetadata)
    (k : Option CaptureMetadata) (ts : List TurnPayload)
    → upload_of issues c k ts ≡ malformed later
    → later ≡ issues
unfolding upload_of
upload_of_malformed [] later (some c) (some k) (t ∷ ts) h = ground arith
upload_of_malformed [] later (some c) (some k) [] h = ground arith
upload_of_malformed [] later (some c) none ts h = ground arith
upload_of_malformed [] later none k ts h = ground arith
upload_of_malformed (i ∷ is) later c k ts h = ground arith

upload_of_parts :
    (c : ConversationMetadata) (k : CaptureMetadata) (v : Value) (ts : List TurnPayload)
    → IsTurnArray v ts
    → upload_of [] (some c) (some k) ts
      ≡ well_formed (record { conversation = c; capture = k; turns = ts })
unfolding upload_of
upload_of_parts c k v [] h = elim h [ ]
upload_of_parts c k v (t ∷ ts) h = refl

module _ (input : Value) where
  abbrev conversation_part : Value
  conversation_part = field (codes "conversation") input

  abbrev capture_part : Value
  capture_part = field (codes "capture") input

  abbrev turns_part : Value
  turns_part = field (codes "turns") input

  abbrev all_issues : List ValidationIssue
  all_issues = joined (
      (parse_conversation conversation_part).issues
      ∷ (parse_capture capture_part).issues
      ∷ (checked_turns turns_part).1
      ∷ [])

  parse_of_object :
      is_plain_object input ≡ true
      → parse_upload_request input
        ≡ upload_of all_issues
            (parse_conversation conversation_part).value
            (parse_capture capture_part).value
            (checked_turns turns_part).0
  unfolding parse_upload_request
  parse_of_object is_object = rw is_object refl

  parse_of_other :
      is_plain_object input ≡ false
      → parse_upload_request input
        ≡ malformed ((record { path = []; message = codes "must be an object" }) ∷ [])
  unfolding parse_upload_request
  parse_of_other is_other = rw is_other refl

  -- Without an issue the body spells an upload.
  parts_of_issues :
      all_issues ≡ []
      → is_plain_object input ≡ true
      → (r : UploadRequest) × (parse_upload_request input ≡ well_formed r) × IsUpload input r
  parts_of_issues h is_object =
      let (h1, (h2, (h3, rest))) = joined-nil _ h in
      let (conversation, e1, is_conversation) = parse_conversation-IsConversation _ h1 in
      let (capture, e2, is_capture) = parse_capture-IsCapture _ h2 in
      let is_turns = checked_turns-IsTurnArray _ h3 in
      (
        record {
          conversation = conversation;
          capture = capture;
          turns = (checked_turns turns_part).0;
        },
        rw (parse_of_object is_object, h, e1, e2)
            (upload_of_parts conversation capture _ _ is_turns),
        record {
          object = is_object;
          conversation = is_conversation;
          capture = is_capture;
          turns = is_turns;
        },
      )

  parse_upload_request-IsUpload :
      (r : UploadRequest) → parse_upload_request input ≡ well_formed r → IsUpload input r
  parse_upload_request-IsUpload r h = elim (Bool-cases (is_plain_object input)) [
    | inr e ↦ let bad = sym h ∙ parse_of_other e in ground arith
    | inl e ↦
        let (quiet, c, k, ts) = upload_of_well_formed _ _ _ _ r (sym (parse_of_object e) ∙ h) in
        let (s, same, is_upload) = parts_of_issues quiet e in
        let agree : s ≡ r = ground (arith, sym same ∙ h) in subst (IsUpload input) agree is_upload
  ]

  parse_of_IsUpload :
      (r : UploadRequest) → IsUpload input r → parse_upload_request input ≡ well_formed r
  unfolding joined
  parse_of_IsUpload r h =
      rw
        (
          parse_of_object h.object,
          parse_conversation_of_IsConversation _ _ h.conversation,
          parse_capture_of_IsCapture _ _ h.capture,
          checked_turns_of_IsTurnArray _ _ h.turns,
        )
        (upload_of_parts r.conversation r.capture _ r.turns h.turns)

  -- A body is accepted exactly when it spells an upload, with nothing added and no turn left out.
  pub parse_upload_request_iff :
      (r : UploadRequest) → (parse_upload_request input ≡ well_formed r) ↔ IsUpload input r
  parse_upload_request_iff r = (parse_upload_request-IsUpload r, parse_of_IsUpload r)

  -- Every refusal names an issue.
  pub parse_upload_request-malformed :
      (issues : List ValidationIssue) → parse_upload_request input ≡ malformed issues → issues ≢ []
  parse_upload_request-malformed issues h empty = elim (Bool-cases (is_plain_object input)) [
    | inr e ↦ let bad = sym h ∙ parse_of_other e in ground arith
    | inl e ↦
        let same = upload_of_malformed _ issues _ _ _ (sym (parse_of_object e) ∙ h) in
        let (r, accepted, is_upload) = parts_of_issues (sym same ∙ empty) e in
        let bad = sym h ∙ accepted in ground arith
  ]
