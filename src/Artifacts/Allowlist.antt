-- ===== src/Artifacts/Allowlist.antt =====
-- apps/extension/src/artifacts/allowlist.ts. The platform's `URL` is the parameter `parse_url`.
pub mod Laws
use newell_ai.Common.{
  ℕ, ◌+◌, ◌*◌, Text, codes, text_eq, trim, Option, none, some, Bool, true, false, not, ◌&&◌, ◌||◌,
  List, [], ◌∷◌, ◌++◌, drop, length, any, ltb, ◌==◌, if◌then◌else◌,
}

abbrev pub artifact_max_bytes : ℕ
artifact_max_bytes = 25 * 1024 * 1024

abbrev pub artifact_min_image_bytes : ℕ
artifact_min_image_bytes = 128

abbrev pub artifact_mime_allowlist : List Text
artifact_mime_allowlist = codes "image/png" ∷ codes "image/jpeg" ∷ codes "image/webp" ∷ []

-- `isAllowedArtifactMime`
unfoldable pub is_allowed_artifact_mime : Text → Bool
is_allowed_artifact_mime mime = any (text_eq mime) artifact_mime_allowlist

abbrev pub png_sig : List ℕ
png_sig = 0x89 ∷ 0x50 ∷ 0x4e ∷ 0x47 ∷ 0x0d ∷ 0x0a ∷ 0x1a ∷ 0x0a ∷ []

abbrev pub jpeg_sig : List ℕ
jpeg_sig = 0xff ∷ 0xd8 ∷ 0xff ∷ []

abbrev pub riff : List ℕ
riff = 0x52 ∷ 0x49 ∷ 0x46 ∷ 0x46 ∷ []

abbrev pub webp : List ℕ
webp = 0x57 ∷ 0x45 ∷ 0x42 ∷ 0x50 ∷ []

-- The loop of `startsWith` over the signature; behind the end of the bytes it reads `undefined`,
-- which is no byte.
unfoldable pub matches : List ℕ → List ℕ → Bool
matches bytes [] = true
matches [] (c ∷ sig) = false
matches (b ∷ bytes) (c ∷ sig) = let later = matches bytes sig in if b == c then later else false

-- `startsWith`
unfoldable pub starts_with : List ℕ → List ℕ → ℕ → Bool
unfolding matches
starts_with bytes sig offset =
    if ltb (length bytes) (offset + length sig) then false else matches (drop offset bytes) sig

-- `detectImageMimeFromBytes`
unfoldable pub detect_image_mime_from_bytes : List ℕ → Option Text
unfolding starts_with
detect_image_mime_from_bytes view =
    if starts_with view png_sig 0
    then some (codes "image/png")
    else if starts_with view jpeg_sig 0
    then some (codes "image/jpeg")
    else if starts_with view riff 0 && starts_with view webp 8
    then some (codes "image/webp")
    else none

pub data ImagePayloadValidation : Type 0 where
  valid : (mime : Text) → ImagePayloadValidation
  invalid : (reason : Text) → ImagePayloadValidation

-- The comparison of the detected type with the declared one.
unfoldable pub agree : Option Text → Text → ImagePayloadValidation
agree none declared_mime = invalid (codes "not_image")
agree (some detected) declared_mime =
    if not (text_eq detected declared_mime) then invalid (codes "mime_mismatch") else valid detected

-- `validateImagePayload`
unfoldable pub validate_image_payload : List ℕ → Text → ImagePayloadValidation
unfolding is_allowed_artifact_mime detect_image_mime_from_bytes agree
validate_image_payload view declared_mime =
    if length view == 0
    then invalid (codes "empty")
    else if ltb artifact_max_bytes (length view)
    then invalid (codes "too_large")
    else if ltb (length view) artifact_min_image_bytes
    then invalid (codes "too_small")
    else if not (is_allowed_artifact_mime declared_mime)
    then invalid (codes "mime")
    else agree (detect_image_mime_from_bytes view) declared_mime

abbrev pub artifact_download_host : Text
artifact_download_host = codes "chatgpt.com"

abbrev pub artifact_download_path : Text
artifact_download_path = codes "/backend-api/estuary/content"

-- The parts of a `URL` that are read; `id` is `url.searchParams.get("id")`.
pub record Url : Type 0 where
  pub protocol : Text
  pub hostname : Text
  pub pathname : Text
  pub id : Option Text

-- `isEstuaryPath`
unfoldable pub is_estuary_path : Text → Bool
is_estuary_path pathname =
    text_eq pathname artifact_download_path
    || text_eq pathname (artifact_download_path ++ codes "/")

pub data EstuaryUrlValidation : Type 0 where
  estuary : Url → (file_id : Text) → EstuaryUrlValidation
  refused : (reason : Text) → EstuaryUrlValidation

abbrev pub with_file_id : Url → Text → EstuaryUrlValidation
with_file_id url [] = refused (codes "missing_id")
with_file_id url (c ∷ file_id) = estuary url (c ∷ file_id)

abbrev pub file_id_of : Option Text → Text
file_id_of none = []
file_id_of (some id) = trim id

unfoldable pub check_url : Option Url → EstuaryUrlValidation
unfolding is_estuary_path
check_url none = refused (codes "invalid_url")
check_url (some url) =
    if not (text_eq url.protocol (codes "https:"))
    then refused (codes "protocol")
    else if not (text_eq url.hostname artifact_download_host)
    then refused (codes "host")
    else if not (is_estuary_path url.pathname)
    then refused (codes "path")
    else with_file_id url (file_id_of url.id)

module _ (parse_url : Text → Option Url) where
  -- `validateEstuaryContentUrl`
  unfoldable pub validate_estuary_content_url : Text → EstuaryUrlValidation
  unfolding check_url
  validate_estuary_content_url raw = check_url (parse_url raw)
