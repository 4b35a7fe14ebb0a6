-- ===== src/Capture/Messaging.antt =====
-- apps/extension/src/capture/messaging.ts: the gates of the service worker. The URL parser of the
-- platform is the parameter `parse_url`.
pub mod Bytes
pub mod Artifact
pub mod Laws
mod Tests
use newell_ai.Common.{
  ℕ, Text, codes, text_eq, trim, Option, none, some, Bool, true, false, not, ◌&&◌, ◌||◌, List, [],
  ◌∷◌, any, length, leb, ltb, ◌==◌, if◌then◌else◌,
}
use newell_ai.Contracts.{Speaker, user, assistant}
use newell_ai.Queue.Enqueue.{is_control, max_source_key_length, validate_source_key}
use newell_ai.Value.{Value, undefined, string, array, field, is_plain_object}

-- `ok: true` with the message, or the reason of the refusal.
pub data Gate (A : Type 0) : Type 0 where
  passed : A → Gate A
  blocked : (reason : Text) → Gate A

infixl 5 ◌>>=◌
unfoldable pub ◌>>=◌ : {A B : Type 0} → Gate A → (A → Gate B) → Gate B
passed a >>= k = k a
blocked reason >>= k = blocked reason

-- `if (!condition) return { ok: false, reason }`
unfoldable pub ensure : Bool → Text → Gate Unit
ensure condition reason = if condition then passed tt else blocked reason

-- `if (value === null) return { ok: false, reason }`
unfoldable pub present : {A : Type 0} → Option A → Text → Gate A
present none reason = blocked reason
present (some a) reason = passed a

abbrev pub max_conversation_id_length : ℕ
max_conversation_id_length = 128

abbrev pub max_turn_text_length : ℕ
max_turn_text_length = 100000

abbrev pub chatgpt_origins : List Text
chatgpt_origins = codes "https://chatgpt.com" ∷ codes "https://chat.openai.com" ∷ []

-- `tab` is there or not, and then its address is.
pub record SenderLike : Type 0 where
  pub id : Option Text
  pub url : Option Text
  pub origin : Option Text
  pub tab : Option (Option Text)

-- A string that is not empty, or else the next choice.
abbrev pub filled_or : Option Text → Option Text → Option Text
filled_or none next = next
filled_or (some []) next = next
filled_or (some (c ∷ s)) next = some (c ∷ s)

abbrev pub tab_url : Option (Option Text) → Option Text
tab_url none = none
tab_url (some url) = url

-- `senderLocation`
unfoldable pub sender_location : SenderLike → Option Text
sender_location sender =
    filled_or (tab_url sender.tab) (filled_or sender.url (filled_or sender.origin none))

-- The parts of a `URL` that are read.
pub record Location : Type 0 where
  pub protocol : Text
  pub origin : Text
  pub hostname : Text

abbrev pub approved : Option Location → Bool
approved none = false
approved (some l) = text_eq l.protocol (codes "https:") && any (text_eq l.origin) chatgpt_origins

abbrev pub has_id : SenderLike → Text → Bool
has_id sender extension_id = elim sender.id [ none ↦ false | some id ↦ text_eq id extension_id ]

pub record CaptureEnqueueMessage : Type 0 where
  pub conversation_id : Text
  pub source_key : Text
  pub speaker : Speaker
  pub text : Text
  pub captured_at : Option Text

-- `[A-Za-z0-9_-]`
abbrev pub is_id_unit : ℕ → Bool
is_id_unit c =
    (leb b'A' c && leb c b'Z')
    || (leb b'a' c && leb c b'z')
    || (leb b'0' c && leb c b'9')
    || c == b'_'
    || c == b'-'

abbrev pub conversation_id_of : Text → Option Text
conversation_id_of trimmed =
    if length trimmed == 0 || ltb max_conversation_id_length (length trimmed)
    then none
    else if any is_control trimmed
    then none
    else if any (λ c. not (is_id_unit c)) trimmed
    then none
    else some trimmed

-- `validateConversationId`
unfoldable pub validate_conversation_id : Value → Option Text
unfolding any
validate_conversation_id (string s) = conversation_id_of (trim s)
validate_conversation_id v = none

-- `validateText`
unfoldable pub validate_text : Value → Option Text
validate_text (string s) =
    if length s == 0 || ltb max_turn_text_length (length s) then none else some s
validate_text v = none

-- `validateCapturedAt`
unfoldable pub validate_captured_at : Value → Option Text
unfolding any
validate_captured_at (string s) =
    if length s == 0 || ltb 64 (length s) then none else if any is_control s then none else some s
validate_captured_at v = none

-- `typeof msg.source_key === "string"` and `validateSourceKey`
unfoldable pub validated_source_key : Value → Option Text
unfolding validate_source_key
validated_source_key (string s) = validate_source_key (some s)
validated_source_key v = none

-- `isSpeaker`
unfoldable pub speaker_in : Value → Option Speaker
speaker_in (string s) =
    if text_eq s (codes "user")
    then some user
    else if text_eq s (codes "assistant")
    then some assistant
    else none
speaker_in v = none

-- `typeof raw === "object"` and not null
abbrev pub is_object_like : Value → Bool
is_object_like (array vs) = true
is_object_like v = is_plain_object v

abbrev pub has_type : Text → Value → Bool
has_type name (string s) = text_eq s name
has_type name v = false

abbrev pub capture_enqueue_type : Text
capture_enqueue_type = codes "captureEnqueue"

-- `validateCaptureEnqueueMessage`
unfoldable pub validate_capture_enqueue_message : Value → Gate CaptureEnqueueMessage
unfolding validate_conversation_id validate_text validate_captured_at validated_source_key
    speaker_in is_plain_object
validate_capture_enqueue_message raw = do
  shape ← ensure (is_object_like raw) (codes "not_object")
  kind ← ensure (has_type capture_enqueue_type (field (codes "type") raw)) (codes "wrong_type")
  conversation_id ←
      present (validate_conversation_id (field (codes "conversation_id") raw))
        (codes "conversation_id")
  source_key ← present (validated_source_key (field (codes "source_key") raw)) (codes "source_key")
  short ← ensure (leb (length source_key) max_source_key_length) (codes "source_key")
  speaker ← present (speaker_in (field (codes "speaker") raw)) (codes "speaker")
  text ← present (validate_text (field (codes "text") raw)) (codes "text")
  passed (record {
    conversation_id = conversation_id;
    source_key = source_key;
    speaker = speaker;
    text = text;
    captured_at = validate_captured_at (field (codes "captured_at") raw);
  })

module _ (parse_url : Text → Option Location) where
  -- `isApprovedChatgptLocation`
  unfoldable pub is_approved_chatgpt_location : Option Text → Bool
  unfolding any
  is_approved_chatgpt_location none = false
  is_approved_chatgpt_location (some []) = false
  is_approved_chatgpt_location (some (c ∷ s)) = approved (parse_url (c ∷ s))

  abbrev pub own_location : Text → Option Location → Bool
  own_location extension_id none = false
  own_location extension_id (some l) =
      text_eq l.protocol (codes "chrome-extension:") && text_eq l.hostname extension_id

  -- `isOwnExtensionUrl`
  unfoldable pub is_own_extension_url : Text → Text → Bool
  is_own_extension_url url extension_id = own_location extension_id (parse_url url)

  abbrev pub foreign_url : Option Text → Text → Bool
  foreign_url none extension_id = false
  foreign_url (some []) extension_id = false
  foreign_url (some (c ∷ s)) extension_id = not (is_own_extension_url (c ∷ s) extension_id)

  abbrev pub has_tab : Option (Option Text) → Bool
  has_tab none = false
  has_tab (some url) = true

  -- `authorizeLegacyEnqueue`
  unfoldable pub authorize_legacy_enqueue : SenderLike → Text → Gate Unit
  unfolding is_own_extension_url
  authorize_legacy_enqueue sender extension_id =
      if not (has_id sender extension_id)
      then blocked (codes "sender_id")
      else if has_tab sender.tab
      then blocked (codes "tab_context")
      else if foreign_url sender.url extension_id
      then blocked (codes "extension_url")
      else passed tt

  -- The first two tests of both gates.
  unfoldable pub from_chatgpt : SenderLike → Text → Gate Unit
  unfolding is_approved_chatgpt_location sender_location
  from_chatgpt sender extension_id =
      if not (has_id sender extension_id)
      then blocked (codes "sender_id")
      else if not (is_approved_chatgpt_location (sender_location sender))
      then blocked (codes "origin")
      else passed tt

  -- `authorizeCaptureEnqueue`
  unfoldable pub authorize_capture_enqueue : Value → SenderLike → Text → Gate CaptureEnqueueMessage
  unfolding from_chatgpt validate_capture_enqueue_message
  authorize_capture_enqueue raw sender extension_id =
      from_chatgpt sender extension_id >>= λ ok. validate_capture_enqueue_message raw
