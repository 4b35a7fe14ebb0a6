-- ===== src/Shell/Config/Pairing.antt =====
-- `pairWithLocalWorker` and `restoreLocalDevelopmentSetup` of apps/extension/src/config.ts. What
-- the worker answers is an argument.
use newell_ai.Common.{
  ℕ, Text, codes, trim, strip_slash, Option, none, some, true, ◌&&◌, ◌||◌, ◌++◌, leb, ◌==◌,
  if◌then◌else◌,
}
use newell_ai.Value.{Value, boolean, string, field}
use newell_ai.Shell.Config.{
  ChromeStorage, SaveResult, saved, save_failed, default_local_worker_url, load_capture_settings,
  save_config, has_token,
}

-- The answer to a request: none, or a status and a body, which `none` says to be no JSON.
pub data PairAnswer : Type 0 where
  unreachable : PairAnswer
  answered : (status : ℕ) → Option Value → PairAnswer

abbrev pub pairing_network_message : Text
pairing_network_message =
    codes "cannot reach local Worker — is wrangler dev running on the configured URL?"

abbrev pub pairing_disabled_message : Text
pairing_disabled_message = codes "local pairing unavailable — check Worker env and extension Origin"

abbrev pub pairing_failed_message : Text
pairing_failed_message =
    codes "local pairing failed — is the Worker running with ALLOW_LOCAL_PAIRING?"

-- `` `${url}/v1/dev/pair` `` of the request
unfoldable pub pair_url : Text → Text
pair_url base_url = strip_slash (trim base_url) ++ codes "/v1/dev/pair"

-- `body.token`, if it is a string
abbrev pub token_in : Value → Option Text
token_in body = elim (field (codes "token") body) [ string token ↦ some token | _ ↦ none ]

module _ (fingerprint : Text → Text) (settle : Text → Value) where
  abbrev pub save_paired : Text → Option Text → ChromeStorage → SaveResult × ChromeStorage
  save_paired base_url none storage = (save_failed pairing_failed_message, storage)
  save_paired base_url (some token) storage =
      save_config fingerprint settle (record { base_url = trim base_url; token = token }) storage

  abbrev pub pair_body : Text → Option Value → ChromeStorage → SaveResult × ChromeStorage
  pair_body base_url none storage = (save_failed pairing_failed_message, storage)
  pair_body base_url (some body) storage = save_paired base_url (token_in body) storage

  -- `pairWithLocalWorker`
  unfoldable pub pair_with_local_worker :
      (Text → PairAnswer) → Text → ChromeStorage → SaveResult × ChromeStorage
  unfolding pair_url save_config
  pair_with_local_worker fetch base_url storage = elim (fetch (pair_url base_url)) [
    | unreachable ↦ (save_failed pairing_network_message, storage)
    | answered status body ↦
        if status == 404 || status == 403
        then (save_failed pairing_disabled_message, storage)
        else if leb 200 status && leb status 299
        then pair_body base_url body storage
        else (save_failed pairing_failed_message, storage)
  ]

  -- `tokenPresent` of the result; the message follows from the branch.
  pub data Restored : Type 0 where
    token_kept token_paired token_needed : Restored

  abbrev pub restored_by : SaveResult × ChromeStorage → Restored × ChromeStorage
  restored_by (saved, storage) = (token_paired, storage)
  restored_by (save_failed message, storage) = (token_needed, storage)

  -- `restoreLocalDevelopmentSetup`
  unfoldable pub restore_local_development_setup :
      (Text → PairAnswer) → ChromeStorage → Restored × ChromeStorage
  unfolding pair_with_local_worker has_token load_capture_settings
  restore_local_development_setup fetch storage =
      let local = record storage {
        base_url = string default_local_worker_url;
        capture_enabled = boolean true;
        user_id = string (load_capture_settings storage).user_id;
      } in
      if has_token local
      then (token_kept, local)
      else restored_by (pair_with_local_worker fetch default_local_worker_url local)
