-- ===== src/Capture/Messaging/Laws.antt =====
-- What passes the gates of the service worker.
use newell_ai.Common.{
  ℕ, ◌≤◌, Text, codes, text_eq, trim, Option, none, some, Bool, true, false, not, ◌&&◌, ◌||◌, List,
  any, length, leb, ltb, ◌==◌, ◌≡◌, subst, leb→le, refl, sym, inl, inr, Bool-cases, arith,
}
use newell_ai.Common.Int.{pos, negsuc}
use newell_ai.Artifacts.Allowlist.{artifact_max_bytes}
use newell_ai.Queue.Enqueue.{is_control, max_source_key_length}
use newell_ai.Value.{
  Value, undefined, null, boolean, nan, number, string, array, object, array_buffer, byte_array,
  field,
}
use newell_ai.Capture.Messaging.{
  Gate, passed, blocked, ◌>>=◌, ensure, present, SenderLike, Location, has_id, sender_location,
  is_approved_chatgpt_location, from_chatgpt, CaptureEnqueueMessage, max_conversation_id_length,
  max_turn_text_length, conversation_id_of, validate_conversation_id, validate_text, is_id_unit,
  validate_capture_enqueue_message, authorize_capture_enqueue,
}
use newell_ai.Capture.Messaging.Artifact.{
  ArtifactEnqueueMessage, artifact_mime, mime_in, byte_size_in, bytes_in,
  validate_artifact_enqueue_message, authorize_artifact_enqueue,
}

-- What came before an accepted end was accepted.
bind-passed :
    {A B : Type 0} (g : Gate A) (k : A → Gate B) (b : B)
    → (g >>= k) ≡ passed b
    → (a : A) × (g ≡ passed a) × (k a ≡ passed b)
unfolding ◌>>=◌
bind-passed (passed a) k b h = (a, refl, h)
bind-passed (blocked reason) k b h = ground arith

ensure-passed : (c : Bool) (reason : Text) (u : Unit) → ensure c reason ≡ passed u → c ≡ true
unfolding ensure
ensure-passed true reason u h = refl
ensure-passed false reason u h = ground arith

present-passed :
    {A : Type 0} (o : Option A) (reason : Text) (a : A) → present o reason ≡ passed a → o ≡ some a
unfolding present
present-passed none reason a h = ground arith
present-passed (some b) reason a h = ground (arith, h)

passed_value : {A : Type 0} (a b : A) → passed a ≡ passed b → a ≡ b
passed_value a b h = ground (arith, h)

-- A conversation id: 1 to 128 letters, digits, dashes and underscores.
abbrev pub IsConversationId : Text → Type 0
IsConversationId id =
    (1 ≤ length id)
    × (length id ≤ max_conversation_id_length)
    × (any (λ c. not (is_id_unit c)) id ≡ false)

conversation_id_of-IsConversationId :
    (t id : Text) → conversation_id_of t ≡ some id → IsConversationId id
conversation_id_of-IsConversationId t id h =
    elim (Bool-cases (length t == 0 || ltb max_conversation_id_length (length t))) [
      | inl e ↦ let bad = rw e at h in ground arith
      | inr e ↦ elim (Bool-cases (any is_control t)) [
        | inl f ↦ let bad = rw (e, f) at h in ground arith
        | inr f ↦ elim (Bool-cases (any (λ c. not (is_id_unit c)) t)) [
          | inl g ↦ let bad = rw (e, f, g) at h in ground arith
          | inr g ↦
              let there : some t ≡ some id = rw (e, f, g) at h in
              let same : t ≡ id = ground (arith, there) in
              let fits : (1 ≤ length t) × (length t ≤ max_conversation_id_length) = ground arith in
              rw (sym same) (fits.0, fits.1, g)
        ]
      ]
    ]

validate_conversation_id-IsConversationId :
    (v : Value) (id : Text) → validate_conversation_id v ≡ some id → IsConversationId id
unfolding validate_conversation_id
validate_conversation_id-IsConversationId (string s) id h =
    conversation_id_of-IsConversationId (trim s) id h
validate_conversation_id-IsConversationId undefined id h = ground arith
validate_conversation_id-IsConversationId null id h = ground arith
validate_conversation_id-IsConversationId (boolean b) id h = ground arith
validate_conversation_id-IsConversationId (number n) id h = ground arith
validate_conversation_id-IsConversationId nan id h = ground arith
validate_conversation_id-IsConversationId (array vs) id h = ground arith
validate_conversation_id-IsConversationId (object ps) id h = ground arith
validate_conversation_id-IsConversationId (array_buffer b) id h = ground arith
validate_conversation_id-IsConversationId (byte_array b) id h = ground arith

abbrev pub IsTurnText : Text → Type 0
IsTurnText s = (1 ≤ length s) × (length s ≤ max_turn_text_length)

validate_text-IsTurnText : (v : Value) (s : Text) → validate_text v ≡ some s → IsTurnText s
unfolding validate_text
validate_text-IsTurnText (string t) s h =
    elim (Bool-cases (length t == 0 || ltb max_turn_text_length (length t))) [
      | inl e ↦ let bad = rw e at h in ground arith
      | inr e ↦
          let there : some t ≡ some s = rw e at h in
          let same : t ≡ s = ground (arith, there) in
          let fits : IsTurnText t = ground arith in rw (sym same) fits
    ]
validate_text-IsTurnText undefined s h = ground arith
validate_text-IsTurnText null s h = ground arith
validate_text-IsTurnText (boolean b) s h = ground arith
validate_text-IsTurnText (number n) s h = ground arith
validate_text-IsTurnText nan s h = ground arith
validate_text-IsTurnText (array vs) s h = ground arith
validate_text-IsTurnText (object ps) s h = ground arith
validate_text-IsTurnText (array_buffer b) s h = ground arith
validate_text-IsTurnText (byte_array b) s h = ground arith

-- The message is from the extension itself, from a page of ChatGPT.
pub record IsTrusted (parse_url : Text → Option Location) (sender : SenderLike) (id : Text)
    : Type 0 where
  pub own_id : has_id sender id ≡ true
  pub approved_page : is_approved_chatgpt_location parse_url (sender_location sender) ≡ true

pub record IsCaptureMessage (m : CaptureEnqueueMessage) : Type 0 where
  pub conversation_id : IsConversationId m.conversation_id
  pub source_key : length m.source_key ≤ max_source_key_length
  pub text : IsTurnText m.text

module _ (parse_url : Text → Option Location) where
  from_chatgpt-IsTrusted :
      (sender : SenderLike) (id : Text) (u : Unit)
      → from_chatgpt parse_url sender id ≡ passed u
      → IsTrusted parse_url sender id
  unfolding from_chatgpt
  from_chatgpt-IsTrusted sender id u h = elim (Bool-cases (has_id sender id)) [
    | inr e ↦ let bad = rw e at h in ground arith
    | inl e ↦ elim (Bool-cases (is_approved_chatgpt_location parse_url (sender_location sender))) [
      | inr f ↦ let bad = rw (e, f) at h in ground arith
      | inl f ↦ record { own_id = e; approved_page = f }
    ]
  ]

  -- A turn passes the gate only from a page of ChatGPT, sent by the extension itself, and with a
  -- conversation id, a source key and a text within their bounds.
  pub authorize_capture_enqueue-IsTrusted :
      (raw : Value) (sender : SenderLike) (id : Text) (m : CaptureEnqueueMessage)
      → authorize_capture_enqueue parse_url raw sender id ≡ passed m
      → IsTrusted parse_url sender id × IsCaptureMessage m
  unfolding authorize_capture_enqueue validate_capture_enqueue_message
  authorize_capture_enqueue-IsTrusted raw sender id m h =
      let (u, from, h0) = bind-passed _ _ m h in
      let (u1, e1, h1) = bind-passed _ _ m h0 in
      let (u2, e2, h2) = bind-passed _ _ m h1 in
      let (conversation, e3, h3) = bind-passed _ _ m h2 in
      let (key, e4, h4) = bind-passed _ _ m h3 in
      let (u5, e5, h5) = bind-passed _ _ m h4 in
      let (speaker, e6, h6) = bind-passed _ _ m h5 in
      let (text, e7, h7) = bind-passed _ _ m h6 in
      (
        from_chatgpt-IsTrusted sender id u from,
        subst IsCaptureMessage (passed_value _ _ h7) (record {
          conversation_id =
              validate_conversation_id-IsConversationId (field (codes "conversation_id") raw)
                conversation (present-passed _ _ _ e3);
          source_key = leb→le _ _ (ensure-passed _ _ u5 e5);
          text = validate_text-IsTurnText (field (codes "text") raw) text (present-passed _ _ _ e7);
        }),
      )

mime_in-allowed :
    (v : Value) (mime : Text) → mime_in v ≡ some mime → any (text_eq mime) artifact_mime ≡ true
unfolding mime_in
mime_in-allowed (string s) mime h = elim (Bool-cases (any (text_eq s) artifact_mime)) [
  | inr e ↦ let bad = rw e at h in ground arith
  | inl e ↦
      let there : some s ≡ some mime = rw e at h in
      let same : s ≡ mime = ground (arith, there) in rw (sym same) e
]
mime_in-allowed undefined mime h = ground arith
mime_in-allowed null mime h = ground arith
mime_in-allowed (boolean b) mime h = ground arith
mime_in-allowed (number n) mime h = ground arith
mime_in-allowed nan mime h = ground arith
mime_in-allowed (array vs) mime h = ground arith
mime_in-allowed (object ps) mime h = ground arith
mime_in-allowed (array_buffer b) mime h = ground arith
mime_in-allowed (byte_array b) mime h = ground arith

byte_size_in-bounded :
    (v : Value) (n : ℕ) → byte_size_in v ≡ some n → (1 ≤ n) × (n ≤ artifact_max_bytes)
unfolding byte_size_in
byte_size_in-bounded (number (pos m)) n h = elim (Bool-cases (m == 0 || ltb artifact_max_bytes m)) [
  | inl e ↦ let bad = rw e at h in ground arith
  | inr e ↦ let there : some m ≡ some n = rw e at h in ground (arith, there)
]
byte_size_in-bounded (number (negsuc m)) n h = ground arith
byte_size_in-bounded undefined n h = ground arith
byte_size_in-bounded null n h = ground arith
byte_size_in-bounded (boolean b) n h = ground arith
byte_size_in-bounded nan n h = ground arith
byte_size_in-bounded (string s) n h = ground arith
byte_size_in-bounded (array vs) n h = ground arith
byte_size_in-bounded (object ps) n h = ground arith
byte_size_in-bounded (array_buffer b) n h = ground arith
byte_size_in-bounded (byte_array b) n h = ground arith

-- Bytes, if there are any, have the declared size.
abbrev pub HasSize : Option (List ℕ) → ℕ → Type 0
HasSize none n = Unit
HasSize (some bs) n = length bs ≡ n

sized_bytes :
    (o : Option (List ℕ)) (n : ℕ) (r : Option (List ℕ))
    → (present o (codes "bytes") >>= λ bytes.
        ensure
          (not (length bytes == 0) && leb (length bytes) artifact_max_bytes && length bytes == n)
          (codes "bytes")
        >>= λ sized. passed (some bytes))
      ≡ passed r
    → HasSize r n
sized_bytes o n r h =
    let (bytes, e1, h1) = bind-passed _ _ r h in
    let (u, e2, h2) = bind-passed _ _ r h1 in
    let ok = ensure-passed _ _ u e2 in
    let same : length bytes ≡ n = ground arith in
    subst (λ x. HasSize x n) (passed_value _ _ h2) same

bytes_in-HasSize : (v : Value) (n : ℕ) (r : Option (List ℕ)) → bytes_in v n ≡ passed r → HasSize r n
unfolding bytes_in
bytes_in-HasSize undefined n r h = subst (λ x. HasSize x n) (passed_value _ _ h) tt
bytes_in-HasSize null n r h = sized_bytes _ n r h
bytes_in-HasSize (boolean b) n r h = sized_bytes _ n r h
bytes_in-HasSize (number m) n r h = sized_bytes _ n r h
bytes_in-HasSize nan n r h = sized_bytes _ n r h
bytes_in-HasSize (string s) n r h = sized_bytes _ n r h
bytes_in-HasSize (array vs) n r h = sized_bytes _ n r h
bytes_in-HasSize (object ps) n r h = sized_bytes _ n r h
bytes_in-HasSize (array_buffer b) n r h = sized_bytes _ n r h
bytes_in-HasSize (byte_array b) n r h = sized_bytes _ n r h

pub record IsArtifactMessage (m : ArtifactEnqueueMessage) : Type 0 where
  pub conversation_id : IsConversationId m.conversation_id
  pub mime_type : any (text_eq m.mime_type) artifact_mime ≡ true
  pub byte_size : (1 ≤ m.declared_byte_size) × (m.declared_byte_size ≤ artifact_max_bytes)
  pub bytes : HasSize m.bytes m.declared_byte_size

pub authorize_artifact_enqueue-IsTrusted :
    (parse_url : Text → Option Location) (raw : Value) (sender : SenderLike) (id : Text)
    (m : ArtifactEnqueueMessage)
    → authorize_artifact_enqueue parse_url raw sender id ≡ passed m
    → IsTrusted parse_url sender id × IsArtifactMessage m
unfolding authorize_artifact_enqueue validate_artifact_enqueue_message
authorize_artifact_enqueue-IsTrusted parse_url raw sender id m h =
    let (u, from, h0) = bind-passed _ _ m h in
    let (u1, e1, h1) = bind-passed _ _ m h0 in
    let (u2, e2, h2) = bind-passed _ _ m h1 in
    let (conversation, e3, h3) = bind-passed _ _ m h2 in
    let (turn, e4, h4) = bind-passed _ _ m h3 in
    let (key, e5, h5) = bind-passed _ _ m h4 in
    let (direction, e6, h6) = bind-passed _ _ m h5 in
    let (mime, e7, h7) = bind-passed _ _ m h6 in
    let (sha, e8, h8) = bind-passed _ _ m h7 in
    let (size, e9, h9) = bind-passed _ _ m h8 in
    let (bytes, e10, h10) = bind-passed _ _ m h9 in
    (
      from_chatgpt-IsTrusted parse_url sender id u from,
      subst IsArtifactMessage (passed_value _ _ h10) (record {
        conversation_id =
            validate_conversation_id-IsConversationId (field (codes "conversation_id") raw)
              conversation (present-passed _ _ _ e3);
        mime_type = mime_in-allowed (field (codes "mime_type") raw) mime (present-passed _ _ _ e7);
        byte_size =
            byte_size_in-bounded (field (codes "declared_byte_size") raw) size
              (present-passed _ _ _ e9);
        bytes = bytes_in-HasSize (field (codes "bytes") raw) size bytes e10;
      }),
    )
