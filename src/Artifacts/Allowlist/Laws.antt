-- ===== src/Artifacts/Allowlist/Laws.antt =====
-- Which images and addresses pass the allowlist.
use newell_ai.Common.{
  ℕ, ◌+◌, ◌≤◌, Text, codes, text_eq, text_eq_iff, Option, none, some, Bool, true, not, ◌&&◌, List,
  [], ◌∷◌, ◌++◌, take, drop, length, any, if◌then◌else◌, ltb, ◌==◌, ◌≡◌, ◌≢◌, ◌↔◌, ◌⊎◌, inl, inr,
  refl, sym, ap, subst, arith,
}
use newell_ai.Artifacts.Allowlist.{
  artifact_max_bytes, artifact_min_image_bytes, is_allowed_artifact_mime, png_sig, jpeg_sig, riff,
  webp, matches, starts_with, detect_image_mime_from_bytes, ImagePayloadValidation, valid, invalid,
  agree, validate_image_payload, Url, artifact_download_host, artifact_download_path,
  is_estuary_path, estuary, with_file_id, file_id_of, check_url, validate_estuary_content_url,
}

-- The bytes hold the signature at an offset.
abbrev pub HasAt : List ℕ → List ℕ → ℕ → Type 0
HasAt bytes sig offset =
    (offset + length sig ≤ length bytes) × (take (length sig) (drop offset bytes) ≡ sig)

matches_iff : (bytes sig : List ℕ) → (matches bytes sig ≡ true) ↔ (take (length sig) bytes ≡ sig)
unfolding matches
matches_iff bytes [] = ground arith
matches_iff [] (c ∷ sig) = ground arith
matches_iff (b ∷ bytes) (c ∷ sig) = ground (arith, matches_iff bytes sig)

starts_with_iff :
    (bytes sig : List ℕ) (offset : ℕ)
    → (starts_with bytes sig offset ≡ true) ↔ HasAt bytes sig offset
unfolding starts_with
starts_with_iff bytes sig offset = ground (arith, matches_iff (drop offset bytes) sig)

-- The signature of an image type.
abbrev pub IsImage : List ℕ → Text → Type 0
IsImage bytes mime =
    ((mime ≡ codes "image/png") × HasAt bytes png_sig 0)
    ⊎ ((mime ≡ codes "image/jpeg") × HasAt bytes jpeg_sig 0)
    ⊎ ((mime ≡ codes "image/webp") × HasAt bytes riff 0 × HasAt bytes webp 8)

first_byte :
    (bytes sig sig' : List ℕ) (c d : ℕ)
    → starts_with bytes (c ∷ sig) 0 ≡ true
    → starts_with bytes (d ∷ sig') 0 ≡ true
    → c ≡ d
unfolding starts_with matches
first_byte [] sig sig' c d h k = ground arith
first_byte (b ∷ bytes) sig sig' c d h k = ground arith

-- The detection without the order of its tests.
abbrev IsDetected : List ℕ → Text → Type 0
IsDetected bytes mime =
    ((mime ≡ codes "image/png") × (starts_with bytes png_sig 0 ≡ true))
    ⊎ ((mime ≡ codes "image/jpeg") × (starts_with bytes jpeg_sig 0 ≡ true))
    ⊎ ((mime ≡ codes "image/webp")
        × (starts_with bytes riff 0 ≡ true)
        × (starts_with bytes webp 8 ≡ true))

choice :
    {A : Type 0} (p j r w : Bool) (a b c mime : A)
    → (p ≡ true → j ≡ true → ⊥)
    → (p ≡ true → r ≡ true → ⊥)
    → (j ≡ true → r ≡ true → ⊥)
    → ((if p then some a else if j then some b else if r && w then some c else none) ≡ some mime)
      ↔ (((mime ≡ a) × (p ≡ true))
          ⊎ ((mime ≡ b) × (j ≡ true))
          ⊎ ((mime ≡ c) × (r ≡ true) × (w ≡ true)))
choice p j r w a b c mime pj pr jr = ground (arith, pj, pr, jr)

detect_image_mime_from_bytes_iff :
    (bytes : List ℕ) (mime : Text)
    → (detect_image_mime_from_bytes bytes ≡ some mime) ↔ IsDetected bytes mime
unfolding detect_image_mime_from_bytes
detect_image_mime_from_bytes_iff bytes mime =
    choice (starts_with bytes png_sig 0) (starts_with bytes jpeg_sig 0) (starts_with bytes riff 0)
      (starts_with bytes webp 8) (codes "image/png") (codes "image/jpeg") (codes "image/webp") mime
      (λ h k. ground (arith, first_byte bytes (drop 1 png_sig) (drop 1 jpeg_sig) 0x89 0xff h k))
      (λ h k. ground (arith, first_byte bytes (drop 1 png_sig) (drop 1 riff) 0x89 0x52 h k))
      (λ h k. ground (arith, first_byte bytes (drop 1 jpeg_sig) (drop 1 riff) 0xff 0x52 h k))

IsDetected-IsImage : (bytes : List ℕ) (mime : Text) → IsDetected bytes mime ↔ IsImage bytes mime
IsDetected-IsImage bytes mime = ground (
  arith,
  starts_with_iff bytes png_sig 0,
  starts_with_iff bytes jpeg_sig 0,
  starts_with_iff bytes riff 0,
  starts_with_iff bytes webp 8,
)

IsImage-is_allowed :
    (bytes : List ℕ) (mime : Text) → IsImage bytes mime → is_allowed_artifact_mime mime ≡ true
unfolding is_allowed_artifact_mime any text_eq codes
IsImage-is_allowed bytes mime (inl (e, h)) = rw e refl
IsImage-is_allowed bytes mime (inr (inl (e, h))) = rw e refl
IsImage-is_allowed bytes mime (inr (inr (e, h, k))) = rw e refl

agree_iff :
    (detected : Option Text) (declared mime : Text)
    → (agree detected declared ≡ valid mime) ↔ ((mime ≡ declared) × (detected ≡ some mime))
unfolding agree
agree_iff none declared mime = ground arith
agree_iff (some d) declared mime = ground (arith, text_eq_iff d declared)

guarded_iff :
    (n : ℕ) (allowed : Bool) (v : ImagePayloadValidation) (mime : Text)
    → ((if n == 0
          then invalid (codes "empty")
          else if ltb artifact_max_bytes n
          then invalid (codes "too_large")
          else if ltb n artifact_min_image_bytes
          then invalid (codes "too_small")
          else if not allowed
          then invalid (codes "mime")
          else v)
        ≡ valid mime)
      ↔ ((artifact_min_image_bytes ≤ n)
          × (n ≤ artifact_max_bytes)
          × (allowed ≡ true)
          × (v ≡ valid mime))
guarded_iff n allowed v mime = ground arith

-- An image is accepted exactly when it has between 128 bytes and 25 MiB and the bytes carry the
-- signature of the declared type, which is PNG, JPEG or WebP; the declared type is returned.
pub validate_image_payload_iff :
    (bytes : List ℕ) (declared mime : Text)
    → (validate_image_payload bytes declared ≡ valid mime) ↔ (
        (mime ≡ declared)
        × (artifact_min_image_bytes ≤ length bytes)
        × (length bytes ≤ artifact_max_bytes)
        × IsImage bytes mime)
unfolding validate_image_payload
validate_image_payload_iff bytes declared mime =
    let guards =
      guarded_iff (length bytes) (is_allowed_artifact_mime declared)
        (agree (detect_image_mime_from_bytes bytes) declared) mime in
    let detected = detect_image_mime_from_bytes_iff bytes mime in
    let agreed = agree_iff (detect_image_mime_from_bytes bytes) declared mime in
    (
      λ h.
          let (low, high, allowed, v) = guards.0 h in
          let (same, found) = agreed.0 v in
          (same, low, high, (IsDetected-IsImage bytes mime).0 (detected.0 found)),
      λ (same, low, high, image). guards.1 (
        low,
        high,
        rw (← same) (IsImage-is_allowed bytes mime image),
        agreed.1 (same, detected.1 ((IsDetected-IsImage bytes mime).1 image)),
      ),
    )

is_estuary_path_iff :
    (p : Text)
    → (is_estuary_path p ≡ true)
      ↔ ((p ≡ artifact_download_path) ⊎ (p ≡ artifact_download_path ++ codes "/"))
unfolding is_estuary_path
is_estuary_path_iff p = ground (
  arith,
  text_eq_iff p artifact_download_path,
  text_eq_iff p (artifact_download_path ++ codes "/"),
)

with_file_id_iff :
    (u url : Url) (id file_id : Text)
    → (with_file_id u id ≡ estuary url file_id) ↔ ((u ≡ url) × (id ≡ file_id) × (file_id ≢ []))
with_file_id_iff u url [] file_id = ground arith
with_file_id_iff u url (c ∷ id) file_id = ground arith

check_url_iff :
    (u url : Url) (file_id : Text)
    → (check_url (some u) ≡ estuary url file_id) ↔ (
        (u ≡ url)
        × (u.protocol ≡ codes "https:")
        × (u.hostname ≡ artifact_download_host)
        × (is_estuary_path u.pathname ≡ true)
        × (file_id_of u.id ≡ file_id)
        × (file_id ≢ []))
unfolding check_url
check_url_iff u url file_id = ground (
  arith,
  text_eq_iff u.protocol (codes "https:"),
  text_eq_iff u.hostname artifact_download_host,
  with_file_id_iff u url (file_id_of u.id) file_id,
)

-- The conditions on an address.
pub record IsEstuaryUrl (url : Url) (file_id : Text) : Type 0 where
  pub secure : url.protocol ≡ codes "https:"
  pub host : url.hostname ≡ artifact_download_host
  pub path :
      (url.pathname ≡ artifact_download_path) ⊎ (url.pathname ≡ artifact_download_path ++ codes "/")
  pub id : file_id_of url.id ≡ file_id
  pub filled : file_id ≢ []

-- An address is accepted exactly when it parses, its scheme is https, its host is chatgpt.com, its
-- path is the content path with or without a slash behind it, and it has an `id` that is not only
-- space; the trimmed `id` is returned.
pub validate_estuary_content_url_iff :
    (parse_url : Text → Option Url) (raw : Text) (url : Url) (file_id : Text)
    → (validate_estuary_content_url parse_url raw ≡ estuary url file_id)
      ↔ ((parse_url raw ≡ some url) × IsEstuaryUrl url file_id)
unfolding validate_estuary_content_url
validate_estuary_content_url_iff parse_url raw url file_id = from (parse_url raw)
  where
    from :
        (o : Option Url)
        → (check_url o ≡ estuary url file_id) ↔ ((o ≡ some url) × IsEstuaryUrl url file_id)
    from none = unfold check_url in ground arith
    from (some u) = (
      λ h.
          let (same, secure, host, path, id, filled) = (check_url_iff u url file_id).0 h in
          (
            ap some same,
            subst (λ x. IsEstuaryUrl x file_id) same
                (record {
                  secure = secure;
                  host = host;
                  path = (is_estuary_path_iff u.pathname).0 path;
                  id = id;
                  filled = filled;
                }),
          ),
      λ (found, good).
          let same : u ≡ url = cc in
          subst (λ x. check_url (some x) ≡ estuary url file_id) (sym same)
            ((check_url_iff url url file_id).1 (
              refl,
              good.secure,
              good.host,
              (is_estuary_path_iff url.pathname).1 good.path,
              good.id,
              good.filled,
            )),
    )
