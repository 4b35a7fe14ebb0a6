-- ===== src/Shell/Background/Off.antt =====
-- Where the message handler changes nothing: for senders that are not trusted and while capture is
-- off.
use newell_ai.Common.{
  Text, codes, text_eq, text_eq_iff, any, [], ◌∷◌, Option, none, some, true, false, ◌≡◌, refl, ap,
  ◌∙◌, ◌⊎◌, inl, inr, Bool-cases, arith,
}
use newell_ai.Value.{
  Value, undefined, null, boolean, nan, number, string, array, object, array_buffer, byte_array,
}
use newell_ai.Capture.Messaging.{
  Gate, passed, blocked, SenderLike, Location, CaptureEnqueueMessage, has_id, approved,
  sender_location, is_approved_chatgpt_location, authorize_capture_enqueue,
}
use newell_ai.Capture.Messaging.Artifact.{ArtifactEnqueueMessage, authorize_artifact_enqueue}
use newell_ai.Capture.Messaging.Laws.{
  IsTrusted, authorize_capture_enqueue-IsTrusted, authorize_artifact_enqueue-IsTrusted,
}
use newell_ai.Shell.Config.{load_capture_settings, is_true}
use newell_ai.Shell.Background.{
  Extension, capture_enqueue, artifact_enqueue, Handled, Chance, gated, accept_turn,
  accept_artifact, handle_message,
}

-- Neither database has changed.
abbrev pub IsUnchanged : Extension → Handled → Type 0
IsUnchanged x h = (h.queue ≡ x.queue) × (h.artifacts ≡ x.artifacts)

-- The address of the sender is a page of ChatGPT.
abbrev pub IsChatgptPage : (Text → Option Location) → SenderLike → Type 0
IsChatgptPage parse_url sender =
    (url : Text) × (l : Location) × (sender_location sender ≡ some url)
    × (parse_url url ≡ some l)
    × (l.protocol ≡ codes "https:")
    × ((l.origin ≡ codes "https://chatgpt.com") ⊎ (l.origin ≡ codes "https://chat.openai.com"))

-- The sender is another extension or no page of ChatGPT, or the stored switch is not `true`.
abbrev pub IsOff : (Text → Option Location) → Text → SenderLike → Extension → Type 0
IsOff parse_url extension_id sender x =
    ¬ (sender.id ≡ some extension_id)
    ⊎ (¬ IsChatgptPage parse_url sender ⊎ ¬ (x.storage.capture_enabled ≡ boolean true))

has_id-some :
    (o : Option Text) (sender : SenderLike) (extension_id : Text)
    → sender.id ≡ o
    → has_id sender extension_id ≡ true
    → sender.id ≡ some extension_id
has_id-some none sender extension_id e h = let bad = rw e at h in ground arith
has_id-some (some id) sender extension_id e h =
    let same : text_eq id extension_id ≡ true = rw e at h in
    e ∙ ap some ((text_eq_iff id extension_id).0 same)

approved-page :
    (o : Option Location)
    → approved o ≡ true
    → (l : Location) × (o ≡ some l)
      × (l.protocol ≡ codes "https:")
      × ((l.origin ≡ codes "https://chatgpt.com") ⊎ (l.origin ≡ codes "https://chat.openai.com"))
unfolding any
approved-page none h = ground arith
approved-page (some l) h =
    let a = text_eq_iff l.protocol (codes "https:") in
    let b = text_eq_iff l.origin (codes "https://chatgpt.com") in
    let c = text_eq_iff l.origin (codes "https://chat.openai.com") in
    elim (Bool-cases (text_eq l.protocol (codes "https:"))) [
      | inr e ↦ let bad = rw e at h in ground arith
      | inl e ↦ elim (Bool-cases (text_eq l.origin (codes "https://chatgpt.com"))) [
        | inl f ↦ (l, refl, a.0 e, inl (b.0 f))
        | inr f ↦ elim (Bool-cases (text_eq l.origin (codes "https://chat.openai.com"))) [
          | inl g ↦ (l, refl, a.0 e, inr (c.0 g))
          | inr g ↦ let bad = rw (e, f, g) at h in ground arith
        ]
      ]
    ]

trusted-page :
    (parse_url : Text → Option Location) (o : Option Text) (sender : SenderLike)
    → sender_location sender ≡ o
    → is_approved_chatgpt_location parse_url o ≡ true
    → IsChatgptPage parse_url sender
unfolding is_approved_chatgpt_location
trusted-page parse_url none sender e h = ground arith
trusted-page parse_url (some []) sender e h = ground arith
trusted-page parse_url (some (c ∷ s)) sender e h =
    let (l, parsed, protocol, origin) = approved-page (parse_url (c ∷ s)) h in
    (c ∷ s, l, e, parsed, protocol, origin)

enabled-true : (v : Value) → ¬ (v ≡ boolean true) → is_true v ≡ false
enabled-true (boolean true) h = absurd (h refl)
enabled-true (boolean false) h = refl
enabled-true undefined h = refl
enabled-true null h = refl
enabled-true nan h = refl
enabled-true (number n) h = refl
enabled-true (string s) h = refl
enabled-true (array vs) h = refl
enabled-true (object ps) h = refl
enabled-true (array_buffer b) h = refl
enabled-true (byte_array b) h = refl

module _ (parse_url : Text → Option Location) (extension_id : Text) (c : Chance)
    (sender : SenderLike) (x : Extension) where
  accept_turn-IsUnchanged :
      (load_capture_settings x.storage).enabled ≡ false
      → (m : CaptureEnqueueMessage) → IsUnchanged x (accept_turn c m x)
  unfolding accept_turn
  accept_turn-IsUnchanged off m = rw off (refl, refl)

  accept_artifact-IsUnchanged :
      (load_capture_settings x.storage).enabled ≡ false
      → (m : ArtifactEnqueueMessage) → IsUnchanged x (accept_artifact c m x)
  unfolding accept_artifact
  accept_artifact-IsUnchanged off m = rw off (refl, refl)

  -- What passed the gate came from a page of ChatGPT and the extension itself.
  trusted-off :
      IsTrusted parse_url sender extension_id
      → IsOff parse_url extension_id sender x
      → (load_capture_settings x.storage).enabled ≡ false
  unfolding load_capture_settings
  trusted-off t (inl h) = absurd (h (has_id-some _ sender extension_id refl t.own_id))
  trusted-off t (inr (inl h)) = absurd (h (trusted-page parse_url _ sender refl t.approved_page))
  trusted-off t (inr (inr h)) = enabled-true x.storage.capture_enabled h

  gated-IsUnchanged :
      {A : Type 0} (g : Gate A) (k : A → Extension → Handled)
      → ((a : A) → g ≡ passed a → IsUnchanged x (k a x))
      → IsUnchanged x (gated g k x)
  gated-IsUnchanged (passed a) k h = h a refl
  gated-IsUnchanged (blocked reason) k h = (refl, refl)

  -- A turn or an image whose sender is not the extension itself or not a page of ChatGPT, or that
  -- comes while the stored switch is anything but `true`, changes neither database, whatever the
  -- message holds.
  pub handle_message-IsUnchanged :
      (raw : Value)
      → IsOff parse_url extension_id sender x
      → IsUnchanged x (handle_message parse_url extension_id c sender (capture_enqueue raw) x)
        × IsUnchanged x (handle_message parse_url extension_id c sender (artifact_enqueue raw) x)
  unfolding handle_message
  handle_message-IsUnchanged raw off = (
    gated-IsUnchanged (authorize_capture_enqueue parse_url raw sender extension_id) (accept_turn c)
        (λ m e.
          let trusted =
            (authorize_capture_enqueue-IsTrusted parse_url raw sender extension_id m e).0 in
          accept_turn-IsUnchanged (trusted-off trusted off) m),
    gated-IsUnchanged (authorize_artifact_enqueue parse_url raw sender extension_id)
        (accept_artifact c)
        (λ m e.
          let trusted =
            (authorize_artifact_enqueue-IsTrusted parse_url raw sender extension_id m e).0 in
          accept_artifact-IsUnchanged (trusted-off trusted off) m),
  )
