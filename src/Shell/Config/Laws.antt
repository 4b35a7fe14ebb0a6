-- ===== src/Shell/Config/Laws.antt =====
-- What `saveConfig` leaves in the storage.
use newell_ai.Common.{
  Text, text_eq, text_eq_iff, trim, true, false, [], ◌∷◌, ◌≡◌, ◌≢◌, refl, subst, sym, ap, ◌⊎◌, inl,
  inr, Bool-cases, and_parts, length, ◌==◌, ==_iff, arith,
}
use newell_ai.Common.Trimming.{trim_idempotent}
use newell_ai.Queue.Sync.Once.{SyncConfig}
use newell_ai.Queue.Sync.Runner.{ready}
use newell_ai.Token.{TokenValidation, valid, invalid, validate_capture_token}
use newell_ai.Token.Laws.{validate_capture_token_again, validate_capture_token_iff}
use newell_ai.Value.{
  Value, undefined, null, boolean, nan, number, string, array, object, array_buffer, byte_array,
}
use newell_ai.Shell.Config.{ChromeStorage, saved, same_token, save_config, load_config}

TokenValidation-cases :
    (raw : Text)
    → ((m : Text) × (validate_capture_token raw ≡ invalid m))
      ⊎ ((t : Text) × (validate_capture_token raw ≡ valid t))
TokenValidation-cases raw = from (validate_capture_token raw) refl
  where
    from :
        (o : TokenValidation)
        → validate_capture_token raw ≡ o
        → ((m : Text) × (validate_capture_token raw ≡ invalid m))
          ⊎ ((t : Text) × (validate_capture_token raw ≡ valid t))
    from (invalid m) e = inl (m, e)
    from (valid t) e = inr (t, e)

-- The value is a text of the same length and with the same fingerprint.
abbrev pub IsVerified : (Text → Text) → Text → Value → Type 0
IsVerified fingerprint token v =
    (got : Text) × ((v ≡ string got)
      × (length got ≡ length token)
      × (fingerprint got ≡ fingerprint token))

module _ (fingerprint : Text → Text) (settle : Text → Value) where
  same_token-IsVerified :
      (token : Text) (v : Value)
      → same_token fingerprint settle token v ≡ true
      → IsVerified fingerprint token v
  same_token-IsVerified token (string got) h =
      let (size, print) =
        and_parts (length got == length token) (text_eq (fingerprint got) (fingerprint token)) h in
      (got, (refl, (==_iff _ _).0 size, (text_eq_iff _ _).0 print))
  same_token-IsVerified token undefined h = ground arith
  same_token-IsVerified token null h = ground arith
  same_token-IsVerified token (boolean b) h = ground arith
  same_token-IsVerified token (number n) h = ground arith
  same_token-IsVerified token nan h = ground arith
  same_token-IsVerified token (array vs) h = ground arith
  same_token-IsVerified token (object ps) h = ground arith
  same_token-IsVerified token (array_buffer b) h = ground arith
  same_token-IsVerified token (byte_array b) h = ground arith

  -- Whatever the storage makes of a written token, saving leaves the old token, no token, or a
  -- text that was read back with the length and the fingerprint of the trimmed new token; and only
  -- in the last case does it report success.
  pub save_config-IsVerified :
      (config : SyncConfig) (storage : ChromeStorage)
      → let r = save_config fingerprint settle config storage in
        ((r.0 ≢ saved) × ((r.1.token ≡ storage.token) ⊎ (r.1.token ≡ undefined)))
        ⊎ ((r.0 ≡ saved) × IsVerified fingerprint (trim config.token) r.1.token)
  unfolding save_config
  save_config-IsVerified config storage = elim (Bool-cases (length (trim config.base_url) == 0)) [
    | inl e ↦ rw e (inl (λ bad. ground arith, inl refl))
    | inr e ↦ elim (TokenValidation-cases config.token) [
      | inl (m, bad) ↦ rw (e, bad) (inl (λ h. ground arith, inl refl))
      | inr (t, good) ↦
          let (same, filled, plain) = (validate_capture_token_iff config.token t).0 good in
          elim (Bool-cases (same_token fingerprint settle t (settle t))) [
            | inl ok ↦
                rw (e, good, ok)
                  (inr (
                    refl,
                    subst (λ x. IsVerified fingerprint x (settle t)) same
                        (same_token-IsVerified t (settle t) ok),
                  ))
            | inr other ↦ rw (e, good, other) (inl (λ h. ground arith, inr refl))
          ]
    ]
  ]

load_of_written :
    (base_url token : Text)
    → (length (trim base_url) == 0) ≡ false
    → validate_capture_token token ≡ valid token
    → token ≢ []
    → (storage : ChromeStorage) → storage.base_url ≡ string (trim base_url)
    → storage.token ≡ string token
    → load_config storage ≡ ready (record { base_url = trim base_url; token = token })
unfolding load_config
load_of_written base_url [] url good filled storage u t = elim (filled refl) [ ]
load_of_written base_url (c ∷ token) url good filled storage u t =
    let some_length : (length (c ∷ token) == 0) ≡ false = ground arith in
    rw (u, t, trim_idempotent base_url, url, some_length, good, trim_idempotent base_url) refl

-- With a storage that keeps what is written, a configuration that was saved is loaded as ready,
-- with the trimmed address and the trimmed token.
pub load_config-save_config :
    (fingerprint : Text → Text) (config : SyncConfig) (storage after : ChromeStorage)
    → save_config fingerprint string config storage ≡ (saved, after)
    → load_config after
      ≡ ready (record { base_url = trim config.base_url; token = trim config.token })
unfolding save_config
load_config-save_config fingerprint config storage after h =
    elim (Bool-cases (length (trim config.base_url) == 0)) [
      | inl e ↦ let bad = rw e at h in ground arith
      | inr e ↦ elim (TokenValidation-cases config.token) [
        | inl (m, refused) ↦ let bad = rw (e, refused) at h in ground arith
        | inr (t, good) ↦
            let (same, filled, plain) = (validate_capture_token_iff config.token t).0 good in
            let again = validate_capture_token_again config.token t good in
            elim (Bool-cases (same_token fingerprint string t (string t))) [
              | inr other ↦ let bad = rw (e, good, other) at h in ground arith
              | inl ok ↦
                  let written = ap (λ p. p.1) (rw (e, good, ok) at h) in
                  rw (sym same) (
                    rw (sym written) (load_of_written config.base_url t e again filled _ refl refl))
            ]
      ]
    ]
