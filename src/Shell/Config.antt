-- ===== src/Shell/Config.antt =====
-- apps/extension/src/config.ts over `chrome.storage.local`. A write always succeeds, except where
-- the source catches that it does not. SHA-256 is the parameter `fingerprint`, and `settle` is what
-- the storage makes of a token that is written, which `saveConfig` reads back.
pub mod Laws
pub mod Transfer
pub mod Pairing
mod Tests
use newell_ai.Common.{
  ℕ, Text, codes, text_eq, trim, strip_slash, Option, none, some, Bool, true, false, not, ◌&&◌,
  ◌||◌, List, [], ◌∷◌, ◌++◌, any, length, leb, ltb, ◌==◌, if◌then◌else◌,
}
use newell_ai.Common.Int.{pos}
use newell_ai.Queue.Enqueue.{is_control}
use newell_ai.Queue.Sync.Once.{SyncConfig}
use newell_ai.Queue.Sync.Runner.{SyncConfigLoad, missing, invalid_token, ready}
use newell_ai.Token.{TokenValidation, valid, invalid, validate_capture_token}
use newell_ai.Value.{
  Value, Props, undefined, null, boolean, number, string, array, object, array_buffer, byte_array,
  no_props, prop, field,
}

-- The values under the keys `STORAGE_KEYS`; a key that was never set has the value `undefined`.
pub record ChromeStorage : Type 0 where
  pub base_url : Value
  pub token : Value
  pub capture_enabled : Value
  pub user_id : Value

abbrev pub default_user_id : Text
default_user_id = codes "user-1"

abbrev pub default_local_worker_url : Text
default_local_worker_url = codes "http://127.0.0.1:8787"

abbrev pub max_user_id_length : ℕ
max_user_id_length = 128

abbrev pub load_token : Text → Value → SyncConfigLoad
load_token base_url (string token) =
    if length token == 0 then missing else elim (validate_capture_token token) [
      | invalid message ↦ invalid_token
      | valid t ↦ ready (record { base_url = trim base_url; token = t })
    ]
load_token base_url v = missing

abbrev pub load_from : Value → Value → SyncConfigLoad
load_from (string base_url) token =
    if length (trim base_url) == 0 then missing else load_token base_url token
load_from v token = missing

-- `loadConfig`
unfoldable pub load_config : ChromeStorage → SyncConfigLoad
unfolding validate_capture_token
load_config storage = load_from storage.base_url storage.token

pub record CaptureSettings : Type 0 where
  pub enabled : Bool
  pub user_id : Text

abbrev pub is_true : Value → Bool
is_true (boolean b) = b
is_true v = false

-- The tests of a stored user id.
abbrev pub usable_user_id : Text → Bool
usable_user_id trimmed =
    not (length trimmed == 0)
    && leb (length trimmed) max_user_id_length
    && not (any is_control trimmed)

abbrev pub stored_user_id : Value → Text
stored_user_id (string raw) = if usable_user_id (trim raw) then trim raw else default_user_id
stored_user_id v = default_user_id

-- `loadCaptureSettings`
unfoldable pub load_capture_settings : ChromeStorage → CaptureSettings
unfolding any
load_capture_settings storage = record {
  enabled = is_true storage.capture_enabled;
  user_id = stored_user_id storage.user_id;
}

-- `SaveConfigResult`, and the other results of that shape.
pub data SaveResult : Type 0 where
  saved : SaveResult
  save_failed : (message : Text) → SaveResult

-- `Partial<CaptureSettings>`
pub record SettingsPatch : Type 0 where
  pub enabled : Option Bool
  pub user_id : Option Text

abbrev pub patched_enabled : Option Bool → Value → Value
patched_enabled none old = old
patched_enabled (some b) old = boolean b

abbrev pub id_or_default : Text → Text
id_or_default trimmed =
    if not (length trimmed == 0) && leb (length trimmed) max_user_id_length
    then trimmed
    else default_user_id

abbrev pub patched_user_id : Option Text → Value → Value
patched_user_id none old = old
patched_user_id (some raw) old = string (id_or_default (trim raw))

-- `saveCaptureSettings`; `writable` says whether the storage takes the write.
unfoldable pub save_capture_settings :
    Bool → SettingsPatch → ChromeStorage → SaveResult × ChromeStorage
save_capture_settings writable patch storage =
    if writable
    then (
      saved,
      record storage {
        capture_enabled = patched_enabled patch.enabled storage.capture_enabled;
        user_id = patched_user_id patch.user_id storage.user_id;
      },
    )
    else (save_failed (codes "Failed to save capture settings"), storage)

abbrev pub base_url_required : Text
base_url_required = codes "Worker base URL is required"

-- The dash of the message is U+2014.
abbrev pub token_storage_mismatch_message : Text
token_storage_mismatch_message = codes "token storage verification failed — re-enter token"

module _ (fingerprint : Text → Text) (settle : Text → Value) where
  -- `got.length !== expectedLength`, and then the fingerprints.
  abbrev pub same_token : Text → Value → Bool
  same_token written (string got) =
      (length got == length written) && text_eq (fingerprint got) (fingerprint written)
  same_token written v = false

  abbrev pub store_token : Text → Text → ChromeStorage → SaveResult × ChromeStorage
  store_token base_url token storage =
      let written = record storage { base_url = string base_url; token = settle token } in
      if same_token token written.token
      then (saved, written)
      else (save_failed token_storage_mismatch_message, record written { token = undefined })

  -- `saveConfig`
  unfoldable pub save_config : SyncConfig → ChromeStorage → SaveResult × ChromeStorage
  unfolding validate_capture_token
  save_config config storage =
      if length (trim config.base_url) == 0
      then (save_failed base_url_required, storage)
      else elim (validate_capture_token config.token) [
        | invalid message ↦ (save_failed message, storage)
        | valid token ↦ store_token (trim config.base_url) token storage
      ]

  -- `importTokenFromClipboard`; `none` is a clipboard that may not be read.
  unfoldable pub import_token_from_clipboard :
      Text → Option Text → ChromeStorage → SaveResult × ChromeStorage
  unfolding save_config
  import_token_from_clipboard base_url none storage = (
    save_failed (codes "clipboard permission denied — allow clipboard access and try again"),
    storage,
  )
  import_token_from_clipboard base_url (some raw) storage =
      if length (trim raw) == 0
      then (save_failed (codes "clipboard is empty — copy the token and try again"), storage)
      else save_config (record { base_url = base_url; token = raw }) storage

-- `saveBaseUrl`
unfoldable pub save_base_url : Text → ChromeStorage → SaveResult × ChromeStorage
save_base_url base_url storage =
    if length (trim base_url) == 0
    then (save_failed base_url_required, storage)
    else (saved, record storage { base_url = string (trim base_url) })

abbrev pub text_of : Value → Text
text_of (string s) = s
text_of v = []

-- `loadBaseUrl`
unfoldable pub load_base_url : ChromeStorage → Text
load_base_url storage = text_of storage.base_url

-- `loadBaseUrlOrDefault`
unfoldable pub load_base_url_or_default : ChromeStorage → Text
unfolding load_base_url
load_base_url_or_default storage =
    let stored = load_base_url storage in
    if length stored == 0 then default_local_worker_url else stored

abbrev pub is_valid : TokenValidation → Bool
is_valid (valid t) = true
is_valid (invalid message) = false

abbrev pub is_usable_token : Value → Bool
is_usable_token (string s) = not (length s == 0) && is_valid (validate_capture_token s)
is_usable_token v = false

-- `hasToken`
unfoldable pub has_token : ChromeStorage → Bool
unfolding validate_capture_token
has_token storage = is_usable_token storage.token
