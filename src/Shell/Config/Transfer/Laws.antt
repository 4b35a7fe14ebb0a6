-- ===== src/Shell/Config/Transfer/Laws.antt =====
-- What an import makes of an export, and that neither carries the token.
use newell_ai.Common.{
  Text, codes, text_eq, trim, Bool, true, false, ◌≡◌, refl, any, length, ◌==◌, inl, inr, Bool-cases,
  arith, if◌then◌else◌,
}
use newell_ai.Common.Trimming.{trim_idempotent}
use newell_ai.Value.{
  Value, undefined, null, boolean, nan, number, string, array, object, array_buffer, byte_array,
  field, is_plain_object, lookup,
}
use newell_ai.Shell.Config.{
  ChromeStorage, saved, default_user_id, usable_user_id, stored_user_id, load_base_url,
  load_base_url_or_default, load_capture_settings,
}
use newell_ai.Shell.Config.Transfer.{
  ExportedConfig, export_configuration, exported_value, import_configuration, import_fields,
  has_prop, write_imported,
}

-- Whatever is imported, the stored token stays.
import_fields-token :
    (u v w : Value) (smuggled : Bool) (storage : ChromeStorage)
    → (import_fields u v w smuggled storage).1.token ≡ storage.token
unfolding import_fields
import_fields-token u v w smuggled storage = ground arith

pub import_configuration-token :
    (raw : Value) (storage : ChromeStorage)
    → (import_configuration raw storage).1.token ≡ storage.token
unfolding import_configuration
import_configuration-token raw storage = ground (
  arith,
  import_fields-token (field (codes "worker_base_url") raw)
      (field (codes "capture_chatgpt_enabled") raw) (field (codes "user_id") raw) false storage,
  import_fields-token (field (codes "worker_base_url") raw)
      (field (codes "capture_chatgpt_enabled") raw) (field (codes "user_id") raw) true storage,
)

-- A user id that settings are loaded with.
abbrev IsUserId : Text → Type 0
IsUserId u = (usable_user_id u ≡ true) × (trim u ≡ u)

default-IsUserId : IsUserId default_user_id
unfolding any codes trim
default-IsUserId = (refl, refl)

stored_user_id-IsUserId : (v : Value) → IsUserId (stored_user_id v)
stored_user_id-IsUserId (string raw) = elim (Bool-cases (usable_user_id (trim raw))) [
  | inl e ↦ rw e (e, trim_idempotent raw)
  | inr e ↦ rw e default-IsUserId
]
stored_user_id-IsUserId undefined = default-IsUserId
stored_user_id-IsUserId null = default-IsUserId
stored_user_id-IsUserId (boolean b) = default-IsUserId
stored_user_id-IsUserId (number n) = default-IsUserId
stored_user_id-IsUserId nan = default-IsUserId
stored_user_id-IsUserId (array vs) = default-IsUserId
stored_user_id-IsUserId (object ps) = default-IsUserId
stored_user_id-IsUserId (array_buffer b) = default-IsUserId
stored_user_id-IsUserId (byte_array b) = default-IsUserId

-- Such a user id is written as it is, and is loaded again.
rewritten_user_id :
    (u : Text)
    → IsUserId u
    → stored_user_id (string (if length (trim u) == 0 then default_user_id else trim u)) ≡ u
rewritten_user_id u (usable, trimmed) =
    let some_length : (length u == 0) ≡ false = ground arith in
    rw (trimmed, some_length, trimmed, usable) refl

import_of_export :
    (c : ExportedConfig) (t : ChromeStorage)
    → c.schema_version ≡ 1
    → c.kind ≡ codes "newellai-capture-client-config"
    → (length (trim c.worker_base_url) == 0) ≡ false
    → import_configuration (exported_value c) t
      ≡ write_imported c.worker_base_url c.capture_chatgpt_enabled c.user_id t
unfolding import_configuration codes text_eq field lookup import_fields has_prop is_plain_object
import_of_export c t version kind filled = rw (version, kind, filled) refl

-- An exported configuration can be imported into any storage unless its base URL is only space:
-- afterwards the capture settings are those of the exporting storage, the base URL is the trimmed
-- one, and the stored token is untouched.
pub import_configuration-export_configuration :
    (s t : ChromeStorage)
    → (length (trim (load_base_url_or_default s)) == 0) ≡ false
    → let r = import_configuration (exported_value (export_configuration s)) t in
      (r.0 ≡ saved)
      × (load_capture_settings r.1 ≡ load_capture_settings s)
      × (load_base_url r.1 ≡ trim (load_base_url_or_default s))
      × (r.1.token ≡ t.token)
unfolding export_configuration load_capture_settings load_base_url any
import_configuration-export_configuration s t filled =
    let written = import_of_export (export_configuration s) t refl refl filled in
    rw (written, rewritten_user_id (stored_user_id s.user_id) (stored_user_id-IsUserId s.user_id))
      (refl, refl, refl, refl)
