-- ===== src/Worker/Validate/Artifact.antt =====
-- apps/worker/src/validate/artifactRequest.ts.
pub mod Fields
pub mod Laws
use newell_ai.Common.{
  ℕ, Text, codes, text_eq, Option, none, some, Bool, true, false, not, ◌&&◌, ◌||◌, List, [], ◌∷◌,
  map, length, leb, ◌==◌, if◌then◌else◌, ◌>>=◌,
}
use newell_ai.Common.Int.{ℤ, pos, negsuc}
use newell_ai.Contracts.{
  ArtifactCreateRequest, ArtifactDirection, user_uploaded, assistant_generated, ArtifactType, image,
  ImageProvenance, uploaded, generated, screenshot, edited_derived, CaptureMetadata,
}
use newell_ai.Queue.Sync.Sanitize.{to_lower}
use newell_ai.Value.{Value, field, is_plain_object}
use newell_ai.Worker.Artifacts.{is_allowed_image_mime}
use newell_ai.Worker.Validate.{
  ValidationIssue, Checked, Validated, well_formed, malformed, clean, issue, joined, object_or,
  expect_string, expect_optional_string, expect_optional_number,
}

-- What `parseCapture` does behind the check of `capture_client`, which returns early.
abbrev pub capture_behind : Option Text → List ValidationIssue → Value → Checked CaptureMetadata
capture_behind none issues value = record { value = none; issues = issues }
capture_behind (some name) issues value =
    let version =
      expect_optional_string (field (codes "capture_client_version") value)
        (codes "capture.capture_client_version") in
    let surface =
      expect_optional_string (field (codes "surface") value) (codes "capture.surface") in
    let batch =
      expect_optional_string (field (codes "captured_batch_id") value)
        (codes "capture.captured_batch_id") in
    record {
      value = some (record {
        capture_client = name;
        capture_client_version = version.value;
        surface = surface.value;
        captured_batch_id = batch.value;
      });
      issues = joined (issues ∷ version.issues ∷ surface.issues ∷ batch.issues ∷ []);
    }

-- `parseCapture`
unfoldable pub parse_artifact_capture : Value → Checked CaptureMetadata
unfolding object_or
parse_artifact_capture value =
    let client =
      expect_string (field (codes "capture_client") value) (codes "capture.capture_client") true in
    object_or value (codes "capture") (capture_behind client.value client.issues value)

unfoldable pub direction_of : Option Text → Checked ArtifactDirection
direction_of none = clean none
direction_of (some raw) =
    if text_eq raw (codes "user_uploaded")
    then clean (some user_uploaded)
    else if text_eq raw (codes "assistant_generated")
    then clean (some assistant_generated)
    else issue (codes "direction") (codes "must be user_uploaded or assistant_generated")

unfoldable pub type_of : Option Text → Checked ArtifactType
type_of none = clean none
type_of (some raw) =
    if text_eq raw (codes "image")
    then clean (some image)
    else issue (codes "artifact_type") (codes "must be image for this slice")

unfoldable pub mime_of : Option Text → Checked Text
mime_of none = clean none
mime_of (some raw) =
    if is_allowed_image_mime raw
    then clean (some raw)
    else issue (codes "mime_type") (codes "must be image/png, image/jpeg, or image/webp")

-- `[a-f0-9]` with the flag `i`
abbrev pub is_hex_digit : ℕ → Bool
is_hex_digit c = (leb b'0' c && leb c b'9') || (leb b'a' (to_lower c) && leb (to_lower c) b'f')

abbrev pub all_hex : Text → Bool
all_hex [] = true
all_hex (c ∷ s) = is_hex_digit c && all_hex s

-- `SHA256_RE.test(s)`
unfoldable pub is_sha256 : Text → Bool
is_sha256 s = (length s == 64) && all_hex s

-- The test of `declared_sha256`, and the lower case that the request takes.
unfoldable pub sha256_of : Option Text → Checked Text
unfolding is_sha256
sha256_of none = clean none
sha256_of (some raw) =
    if is_sha256 raw
    then clean (some (map to_lower raw))
    else issue (codes "declared_sha256") (codes "must be 64 hex chars")

unfoldable pub byte_size_of : Option ℤ → Checked ℕ
byte_size_of none = clean none
byte_size_of (some (pos n)) = clean (some n)
byte_size_of (some (negsuc n)) = issue (codes "declared_byte_size") (codes "must be >= 0")

-- `(declared_sha256 !== undefined) !== (declared_byte_size !== undefined)`
unfoldable pub pair_of : Option Text → Option ℤ → Checked Unit
pair_of none none = clean (some tt)
pair_of (some sha) (some size) = clean (some tt)
pair_of sha size =
    issue (codes "declared_sha256")
      (codes "declared_sha256 and declared_byte_size must be provided together")

unfoldable pub provenance_of : Option Text → Checked ImageProvenance
provenance_of none = clean none
provenance_of (some raw) =
    if text_eq raw (codes "uploaded")
    then clean (some uploaded)
    else if text_eq raw (codes "generated")
    then clean (some generated)
    else if text_eq raw (codes "screenshot")
    then clean (some screenshot)
    else if text_eq raw (codes "edited_derived")
    then clean (some edited_derived)
    else issue (codes "image_provenance") (codes "invalid provenance")

abbrev pub required : Text → Value → Checked Text
required name raw = expect_string (field name raw) name true

abbrev pub optional : Text → Value → Checked Text
optional name raw = expect_optional_string (field name raw) name

-- The checks of the fields, with the issues in the order of the source.
unfoldable pub artifact_fields : Value → Checked ArtifactCreateRequest
unfolding parse_artifact_capture direction_of type_of mime_of sha256_of byte_size_of pair_of
    provenance_of
artifact_fields raw =
    let client_artifact_id = required (codes "client_artifact_id") raw in
    let conversation_id = required (codes "conversation_id") raw in
    let user_id = required (codes "user_id") raw in
    let client_turn_id = required (codes "client_turn_id") raw in
    let direction_raw = required (codes "direction") raw in
    let type_raw = required (codes "artifact_type") raw in
    let mime_raw = required (codes "mime_type") raw in
    let capture = parse_artifact_capture (field (codes "capture") raw) in
    let direction = direction_of direction_raw.value in
    let artifact_type = type_of type_raw.value in
    let mime_type = mime_of mime_raw.value in
    let sha256_raw = optional (codes "declared_sha256") raw in
    let sha256 = sha256_of sha256_raw.value in
    let size_raw =
      expect_optional_number (field (codes "declared_byte_size") raw)
        (codes "declared_byte_size") in
    let byte_size = byte_size_of size_raw.value in
    let pair = pair_of sha256_raw.value size_raw.value in
    let original_filename = optional (codes "original_filename") raw in
    let provenance_raw = optional (codes "image_provenance") raw in
    let image_provenance = provenance_of provenance_raw.value in
    let parent = optional (codes "parent_artifact_id") raw in
    let source_key = optional (codes "source_key") raw in
    let captured_at = optional (codes "captured_at") raw in
    record {
      value = do
        artifact ← client_artifact_id.value
        conversation ← conversation_id.value
        account ← user_id.value
        turn ← client_turn_id.value
        way ← direction.value
        kind ← artifact_type.value
        mime ← mime_type.value
        client ← capture.value
        some (record {
          client_artifact_id = artifact;
          conversation_id = conversation;
          user_id = account;
          client_turn_id = turn;
          direction = way;
          artifact_type = kind;
          mime_type = mime;
          declared_sha256 = sha256.value;
          declared_byte_size = byte_size.value;
          original_filename = original_filename.value;
          image_provenance = image_provenance.value;
          parent_artifact_id = parent.value;
          source_key = source_key.value;
          captured_at = captured_at.value;
          capture = client;
        });
      issues = joined (
          client_artifact_id.issues ∷ conversation_id.issues ∷ user_id.issues
          ∷ client_turn_id.issues ∷ direction_raw.issues ∷ type_raw.issues ∷ mime_raw.issues
          ∷ capture.issues ∷ direction.issues ∷ artifact_type.issues ∷ mime_type.issues
          ∷ sha256_raw.issues ∷ sha256.issues ∷ size_raw.issues ∷ byte_size.issues ∷ pair.issues
          ∷ original_filename.issues ∷ provenance_raw.issues ∷ image_provenance.issues
          ∷ parent.issues ∷ source_key.issues ∷ captured_at.issues ∷ []);
    }

-- `issues.length > 0 || capture === undefined`
unfoldable pub request_of : Checked ArtifactCreateRequest → Validated ArtifactCreateRequest
request_of checked = elim checked.issues [
  | [] ↦ elim checked.value [ none ↦ malformed [] | some r ↦ well_formed r ]
  | i ∷ is ↦ malformed (i ∷ is)
]

-- `parseArtifactCreateRequest`
unfoldable pub parse_artifact_create_request : Value → Validated ArtifactCreateRequest
unfolding artifact_fields request_of
parse_artifact_create_request raw =
    let whole : Checked ArtifactCreateRequest = issue [] (codes "must be an object") in
    if is_plain_object raw then request_of (artifact_fields raw) else malformed whole.issues
