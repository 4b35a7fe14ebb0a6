-- ===== src/Worker/Validate/Artifact/Fields.antt =====
-- What the checks of single fields accept.
use newell_ai.Common.{
  ℕ, Text, codes, text_eq, text_eq_iff, Option, none, some, true, List, [], ◌≡◌, refl, ◌∙◌, map,
  inl, inr, Bool-cases, arith,
}
use newell_ai.Common.Int.{ℤ, pos, negsuc}
use newell_ai.Contracts.{
  ArtifactDirection, user_uploaded, assistant_generated, ArtifactType, image, ImageProvenance,
  uploaded, generated, screenshot, edited_derived, CaptureMetadata,
}
use newell_ai.Queue.Sync.Sanitize.{to_lower}
use newell_ai.Value.{Value, undefined, number, field}
use newell_ai.Worker.Artifacts.{is_allowed_image_mime}
use newell_ai.Worker.Validate.{ValidationIssue, clean, joined, expect_string}
use newell_ai.Worker.Validate.Laws.{
  joined-nil, object_or_lem, object_or_of_object, IsText, IsOptionalText, IsOptionalNumber,
  expect_string_of_IsText, expect_string-IsText, expect_optional_string_of_IsOptionalText,
  expect_optional_string-IsOptionalText,
}
use newell_ai.Worker.Validate.Upload.Laws.{IsCapture}
use newell_ai.Worker.Validate.Artifact.{
  capture_behind, parse_artifact_capture, direction_of, type_of, mime_of, is_sha256, sha256_of,
  byte_size_of, pair_of, provenance_of,
}

abbrev pub direction_text : ArtifactDirection → Text
direction_text user_uploaded = codes "user_uploaded"
direction_text assistant_generated = codes "assistant_generated"

abbrev pub provenance_text : ImageProvenance → Text
provenance_text uploaded = codes "uploaded"
provenance_text generated = codes "generated"
provenance_text screenshot = codes "screenshot"
provenance_text edited_derived = codes "edited_derived"

abbrev pub optional_provenance_text : Option ImageProvenance → Option Text
optional_provenance_text none = none
optional_provenance_text (some p) = some (provenance_text p)

pub direction_of_text :
    (d : ArtifactDirection) → direction_of (some (direction_text d)) ≡ clean (some d)
unfolding direction_of codes text_eq
direction_of_text user_uploaded = refl
direction_of_text assistant_generated = refl

pub direction_of_issues :
    (raw : Text)
    → (direction_of (some raw)).issues ≡ []
    → (d : ArtifactDirection) × (direction_of (some raw) ≡ clean (some d))
      × (raw ≡ direction_text d)
unfolding direction_of
direction_of_issues raw h = elim (Bool-cases (text_eq raw (codes "user_uploaded"))) [
  | inl e ↦ (user_uploaded, rw e refl, (text_eq_iff _ _).0 e)
  | inr e ↦ elim (Bool-cases (text_eq raw (codes "assistant_generated"))) [
    | inl f ↦ (assistant_generated, rw (e, f) refl, (text_eq_iff _ _).0 f)
    | inr f ↦ ground arith
  ]
]

pub type_of_text : (t : ArtifactType) → type_of (some (codes "image")) ≡ clean (some t)
unfolding type_of codes text_eq
type_of_text image = refl

pub type_of_issues :
    (raw : Text)
    → (type_of (some raw)).issues ≡ []
    → (type_of (some raw) ≡ clean (some image)) × (raw ≡ codes "image")
unfolding type_of
type_of_issues raw h = elim (Bool-cases (text_eq raw (codes "image"))) [
  | inl e ↦ (rw e refl, (text_eq_iff _ _).0 e)
  | inr e ↦ ground arith
]

pub mime_of_issues :
    (raw : Text)
    → (mime_of (some raw)).issues ≡ []
    → (is_allowed_image_mime raw ≡ true) × (mime_of (some raw) ≡ clean (some raw))
unfolding mime_of
mime_of_issues raw h = elim (Bool-cases (is_allowed_image_mime raw)) [
  | inl e ↦ (e, rw e refl)
  | inr e ↦ ground arith
]

pub mime_of_allowed :
    (raw : Text) → is_allowed_image_mime raw ≡ true → mime_of (some raw) ≡ clean (some raw)
unfolding mime_of
mime_of_allowed raw h = rw h refl

pub provenance_of_text :
    (o : Option ImageProvenance) → provenance_of (optional_provenance_text o) ≡ clean o
unfolding provenance_of codes text_eq
provenance_of_text none = refl
provenance_of_text (some uploaded) = refl
provenance_of_text (some generated) = refl
provenance_of_text (some screenshot) = refl
provenance_of_text (some edited_derived) = refl

pub provenance_of_issues :
    (raw : Option Text)
    → (provenance_of raw).issues ≡ []
    → raw ≡ optional_provenance_text (provenance_of raw).value
unfolding provenance_of
provenance_of_issues none h = refl
provenance_of_issues (some raw) h = elim (Bool-cases (text_eq raw (codes "uploaded"))) [
  | inl e ↦ rw (e, (text_eq_iff _ _).0 e) refl
  | inr e ↦ elim (Bool-cases (text_eq raw (codes "generated"))) [
    | inl f ↦ rw (e, f, (text_eq_iff _ _).0 f) refl
    | inr f ↦ elim (Bool-cases (text_eq raw (codes "screenshot"))) [
      | inl g ↦ rw (e, f, g, (text_eq_iff _ _).0 g) refl
      | inr g ↦ elim (Bool-cases (text_eq raw (codes "edited_derived"))) [
        | inl k ↦ rw (e, f, g, k, (text_eq_iff _ _).0 k) refl
        | inr k ↦ ground arith
      ]
    ]
  ]
]

-- The declared checksum, in lower case, and the declared size come together or not at all.
abbrev pub IsDeclared : Value → Value → Option Text → Option ℕ → Type 0
IsDeclared sha size none none = (sha ≡ undefined) × (size ≡ undefined)
IsDeclared sha size none (some n) = ⊥
IsDeclared sha size (some s) none = ⊥
IsDeclared sha size (some s) (some n) =
    (raw : Text) × (IsText sha raw
      × (is_sha256 raw ≡ true)
      × (s ≡ map to_lower raw)
      × (size ≡ number (pos n)))

pub sha256_of_issues :
    (raw : Text)
    → (sha256_of (some raw)).issues ≡ []
    → (is_sha256 raw ≡ true) × (sha256_of (some raw) ≡ clean (some (map to_lower raw)))
unfolding sha256_of
sha256_of_issues raw h = elim (Bool-cases (is_sha256 raw)) [
  | inl e ↦ (e, rw e refl)
  | inr e ↦ ground arith
]

pub sha256_of_hex :
    (raw : Text) → is_sha256 raw ≡ true → sha256_of (some raw) ≡ clean (some (map to_lower raw))
unfolding sha256_of
sha256_of_hex raw h = rw h refl

pub declared_lem :
    (sha size : Value) (s : Option Text) (n : Option ℤ)
    → IsOptionalText sha s
    → IsOptionalNumber size n
    → (sha256_of s).issues ≡ []
    → (byte_size_of n).issues ≡ []
    → (pair_of s n).issues ≡ []
    → IsDeclared sha size (sha256_of s).value (byte_size_of n).value
unfolding sha256_of byte_size_of pair_of
declared_lem sha size none none is_sha is_size h1 h2 h3 = (is_sha, is_size)
declared_lem sha size none (some n) is_sha is_size h1 h2 h3 = ground arith
declared_lem sha size (some s) none is_sha is_size h1 h2 h3 = ground arith
declared_lem sha size (some s) (some (negsuc n)) is_sha is_size h1 h2 h3 = ground arith
declared_lem sha size (some s) (some (pos n)) is_sha is_size h1 h2 h3 =
    let (hex, e) = sha256_of_issues s h1 in rw hex (s, (is_sha, hex, refl, is_size))

-- What the fields that spell a declaration are read as.
pub record AreRead (sha size : Value) (s : Option Text) (n : Option ℕ) : Type 0 where
  pub raw_sha : Option Text
  pub raw_size : Option ℤ
  pub is_sha : IsOptionalText sha raw_sha
  pub is_size : IsOptionalNumber size raw_size
  pub sha_read : sha256_of raw_sha ≡ clean s
  pub size_read : byte_size_of raw_size ≡ clean n
  pub paired : pair_of raw_sha raw_size ≡ clean (some tt)

pub IsDeclared-AreRead :
    (sha size : Value) (s : Option Text) (n : Option ℕ)
    → IsDeclared sha size s n
    → AreRead sha size s n
unfolding sha256_of byte_size_of pair_of
IsDeclared-AreRead sha size none none (e, f) = record {
  raw_sha = none;
  raw_size = none;
  is_sha = e;
  is_size = f;
  sha_read = refl;
  size_read = refl;
  paired = refl;
}
IsDeclared-AreRead sha size none (some n) h = elim h [ ]
IsDeclared-AreRead sha size (some s) none h = elim h [ ]
IsDeclared-AreRead sha size (some s) (some n) (raw, (is_text, hex, lower, is_size)) = record {
  raw_sha = some raw;
  raw_size = some (pos n);
  is_sha = is_text;
  is_size = is_size;
  sha_read = rw (hex, lower) refl;
  size_read = refl;
  paired = refl;
}

pub parse_artifact_capture_of_IsCapture :
    (v : Value) (c : CaptureMetadata) → IsCapture v c → parse_artifact_capture v ≡ clean (some c)
unfolding parse_artifact_capture joined
parse_artifact_capture_of_IsCapture v c h =
    object_or_of_object v _ _ h.object
    ∙ rw
        (
          expect_string_of_IsText _ _ (codes "capture.capture_client") h.capture_client,
          expect_optional_string_of_IsOptionalText _ _ (codes "capture.capture_client_version")
              h.version,
          expect_optional_string_of_IsOptionalText _ _ (codes "capture.surface") h.surface,
          expect_optional_string_of_IsOptionalText _ _ (codes "capture.captured_batch_id") h.batch,
        )
        refl

capture_behind_issues :
    (client : Option Text) (issues : List ValidationIssue) (v : Value)
    → (capture_behind client issues v).issues ≡ []
    → issues ≡ []
capture_behind_issues none issues v h = h
capture_behind_issues (some name) issues v h = (joined-nil _ h).0

pub parse_artifact_capture-IsCapture :
    (v : Value)
    → (parse_artifact_capture v).issues ≡ []
    → (c : CaptureMetadata) × ((parse_artifact_capture v).value ≡ some c) × IsCapture v c
unfolding parse_artifact_capture
parse_artifact_capture-IsCapture v h =
    let client =
      expect_string (field (codes "capture_client") v) (codes "capture.capture_client") true in
    let (is_object, all, same) =
      object_or_lem v _ (capture_behind client.value client.issues v) h in
    let quiet = capture_behind_issues client.value client.issues v all in
    let (name, is_name, e) = expect_string-IsText _ _ quiet in
    let (h1, (h2, (h3, (h4, rest)))) = joined-nil _ (rw e at all) in
    (
      _,
      rw (same, e) refl,
      record {
        object = is_object;
        capture_client = is_name;
        version = expect_optional_string-IsOptionalText _ _ h2;
        surface = expect_optional_string-IsOptionalText _ _ h3;
        batch = expect_optional_string-IsOptionalText _ _ h4;
      },
    )
