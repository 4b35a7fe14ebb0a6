-- ===== src/Shell/Config/Tests.antt =====
-- Configurations on concrete storages, and the theorems at concrete inputs.
use newell_ai.Common.{Text, codes, trim, true, ◌≡◌, ◌≢◌, ◌⊎◌, refl, text_eq}
use newell_ai.Queue.Sync.Once.{SyncConfig}
use newell_ai.Value.{Value, undefined, boolean, string, nan}
use newell_ai.Shell.Config.{ChromeStorage, saved, save_config}
use newell_ai.Shell.Config.Laws.{IsVerified, save_config-IsVerified}

abbrev fresh_storage : ChromeStorage
fresh_storage = record {
  base_url = undefined;
  token = undefined;
  capture_enabled = undefined;
  user_id = undefined;
}

abbrev config : SyncConfig
config = record { base_url = codes " http://h "; token = codes "ab " }

abbrev saved_storage : ChromeStorage
saved_storage = record {
  base_url = string (codes "http://h");
  token = string (codes "ab");
  capture_enabled = undefined;
  user_id = undefined;
}

abbrev print : Text → Text
print s = s

saves : save_config print string config fresh_storage ≡ (saved, saved_storage)
unfolding save_config trim codes text_eq
saves = refl

-- A storage that loses what is written.
abbrev losing : Text → Value
losing s = nan

save_config-IsVerified_example :
    let r = save_config print losing config fresh_storage in
    ((r.0 ≢ saved) × ((r.1.token ≡ undefined) ⊎ (r.1.token ≡ undefined)))
    ⊎ ((r.0 ≡ saved) × IsVerified print (trim (codes "ab ")) r.1.token)
save_config-IsVerified_example = save_config-IsVerified print losing config fresh_storage

abbrev own_storage : ChromeStorage
own_storage = record {
  base_url = string (codes "http://h ");
  token = string (codes "secret");
  capture_enabled = boolean true;
  user_id = string (codes "me");
}
