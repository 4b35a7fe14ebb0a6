-- ===== src/Shell/Config/Transfer.antt =====
-- The export and import of the configuration in apps/extension/src/config.ts.
pub mod Laws
use newell_ai.Common.{
  ℕ, Text, codes, text_eq, trim, Bool, true, false, ◌||◌, List, [], ◌∷◌, length, ◌==◌,
  if◌then◌else◌,
}
use newell_ai.Common.Int.{pos}
use newell_ai.Value.{
  Value, Props, undefined, null, boolean, number, string, array, object, array_buffer, byte_array,
  no_props, prop, field, is_plain_object,
}
use newell_ai.Shell.Config.{
  ChromeStorage, CaptureSettings, SaveResult, saved, save_failed, default_user_id,
  load_base_url_or_default, load_capture_settings,
}

abbrev pub config_export_kind : Text
config_export_kind = codes "newellai-capture-client-config"

abbrev pub config_export_schema_version : ℕ
config_export_schema_version = 1

pub record ExportedConfig : Type 0 where
  pub schema_version : ℕ
  pub kind : Text
  pub worker_base_url : Text
  pub capture_chatgpt_enabled : Bool
  pub user_id : Text

-- `exportConfiguration`
unfoldable pub export_configuration : ChromeStorage → ExportedConfig
unfolding load_base_url_or_default load_capture_settings
export_configuration storage =
    let capture = load_capture_settings storage in
    record {
      schema_version = config_export_schema_version;
      kind = config_export_kind;
      worker_base_url = load_base_url_or_default storage;
      capture_chatgpt_enabled = capture.enabled;
      user_id = capture.user_id;
    }

-- What `JSON.stringify` and `JSON.parse` make of the exported configuration.
abbrev pub exported_value : ExportedConfig → Value
exported_value c = object (
    prop (codes "schema_version") (number (pos c.schema_version)) (
      prop (codes "kind") (string c.kind) (
        prop (codes "worker_base_url") (string c.worker_base_url) (
          prop (codes "capture_chatgpt_enabled") (boolean c.capture_chatgpt_enabled)
            (prop (codes "user_id") (string c.user_id) no_props)))))

-- `name in props`
unfoldable pub has_prop : Text → Props → Bool
has_prop k no_props = false
has_prop k (prop name v ps) = text_eq k name || has_prop k ps

abbrev pub has_key : Text → Value → Bool
has_key k (object ps) = has_prop k ps
has_key k v = false

-- `typeof raw === "object" && raw !== null`
abbrev pub is_any_object : Value → Bool
is_any_object (array vs) = true
is_any_object v = is_plain_object v

abbrev pub is_text : Text → Value → Bool
is_text s (string t) = text_eq t s
is_text s v = false

abbrev pub is_number : ℕ → Value → Bool
is_number n (number (pos m)) = m == n
is_number n v = false

abbrev pub write_imported : Text → Bool → Text → ChromeStorage → SaveResult × ChromeStorage
write_imported base_url enabled user_id storage = (
  saved,
  record storage {
    base_url = string (trim base_url);
    capture_enabled = boolean enabled;
    user_id = string (if length (trim user_id) == 0 then default_user_id else trim user_id);
  },
)

-- The tests of the types of the fields, and of a token that is smuggled in.
unfoldable pub import_fields :
    Value → Value → Value → Bool → ChromeStorage → SaveResult × ChromeStorage
import_fields (string base_url) (boolean enabled) (string user_id) smuggled storage =
    if length (trim base_url) == 0
    then (save_failed (codes "worker_base_url is required"), storage)
    else if smuggled
    then (save_failed (codes "Configuration must not include a token"), storage)
    else write_imported base_url enabled user_id storage
import_fields (string base_url) (boolean enabled) v smuggled storage =
    if length (trim base_url) == 0
    then (save_failed (codes "worker_base_url is required"), storage)
    else (save_failed (codes "user_id is required"), storage)
import_fields (string base_url) v w smuggled storage =
    if length (trim base_url) == 0
    then (save_failed (codes "worker_base_url is required"), storage)
    else (save_failed (codes "capture_chatgpt_enabled must be boolean"), storage)
import_fields u v w smuggled storage = (save_failed (codes "worker_base_url is required"), storage)

-- `importConfiguration`
unfoldable pub import_configuration : Value → ChromeStorage → SaveResult × ChromeStorage
unfolding import_fields has_prop is_plain_object
import_configuration raw storage =
    if is_any_object raw
    then (if is_text config_export_kind (field (codes "kind") raw)
        then (if is_number config_export_schema_version (field (codes "schema_version") raw)
            then import_fields (field (codes "worker_base_url") raw)
                (field (codes "capture_chatgpt_enabled") raw) (field (codes "user_id") raw)
                (has_key (codes "capture_api_token") raw || has_key (codes "token") raw) storage
            else (save_failed (codes "Unsupported configuration schema_version"), storage))
        else (save_failed (codes "Unrecognized configuration kind"), storage))
    else (save_failed (codes "Invalid configuration file"), storage)
