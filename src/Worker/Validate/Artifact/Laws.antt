-- ===== src/Worker/Validate/Artifact/Laws.antt =====
-- Exactly which bodies `parseArtifactCreateRequest` accepts, and what it answers to the others.
use newell_ai.Common.{
  codes, Option, none, some, true, false, List, [], ◌∷◌, ◌≡◌, ◌≢◌, refl, sym, ◌∙◌, subst, ◌↔◌, inl,
  inr, Bool-cases, arith,
}
use newell_ai.Common.Int.{ℤ}
use newell_ai.Contracts.{ArtifactCreateRequest, image}
use newell_ai.Value.{Value, field, is_plain_object}
use newell_ai.Worker.Artifacts.{is_allowed_image_mime}
use newell_ai.Worker.Validate.{
  ValidationIssue, Checked, well_formed, malformed, clean, joined, expect_optional_number,
}
use newell_ai.Worker.Validate.Laws.{
  joined-nil, IsText, IsOptionalText, expect_string_of_IsText, expect_string-IsText,
  expect_optional_string_of_IsOptionalText, expect_optional_string-IsOptionalText,
  expect_optional_number_of_IsOptionalNumber, expect_optional_number-IsOptionalNumber,
}
use newell_ai.Worker.Validate.Upload.Laws.{IsCapture}
use newell_ai.Worker.Validate.Artifact.{
  sha256_of, byte_size_of, provenance_of, optional, artifact_fields, request_of,
  parse_artifact_create_request,
}
use newell_ai.Worker.Validate.Artifact.Fields.{
  direction_text, optional_provenance_text, IsDeclared, direction_of_text, direction_of_issues,
  type_of_text, type_of_issues, mime_of_issues, mime_of_allowed, provenance_of_text,
  provenance_of_issues, declared_lem, IsDeclared-AreRead, parse_artifact_capture_of_IsCapture,
  parse_artifact_capture-IsCapture,
}

-- The body is the object that spells the request; other properties do not matter.
pub record IsArtifactRequest (v : Value) (r : ArtifactCreateRequest) : Type 0 where
  pub is_object : is_plain_object v ≡ true
  pub client_artifact_id : IsText (field (codes "client_artifact_id") v) r.client_artifact_id
  pub conversation_id : IsText (field (codes "conversation_id") v) r.conversation_id
  pub user_id : IsText (field (codes "user_id") v) r.user_id
  pub client_turn_id : IsText (field (codes "client_turn_id") v) r.client_turn_id
  pub direction : IsText (field (codes "direction") v) (direction_text r.direction)
  pub artifact_type : IsText (field (codes "artifact_type") v) (codes "image")
  pub mime_type : IsText (field (codes "mime_type") v) r.mime_type
  pub allowed : is_allowed_image_mime r.mime_type ≡ true
  pub capture : IsCapture (field (codes "capture") v) r.capture
  pub declared :
      IsDeclared
        (field (codes "declared_sha256") v)
        (field (codes "declared_byte_size") v)
        r.declared_sha256
        r.declared_byte_size
  pub original_filename : IsOptionalText (field (codes "original_filename") v) r.original_filename
  pub provenance :
      IsOptionalText
        (field (codes "image_provenance") v)
        (optional_provenance_text r.image_provenance)
  pub parent : IsOptionalText (field (codes "parent_artifact_id") v) r.parent_artifact_id
  pub source_key : IsOptionalText (field (codes "source_key") v) r.source_key
  pub captured_at : IsOptionalText (field (codes "captured_at") v) r.captured_at

artifact_fields_of_IsArtifactRequest :
    (v : Value) (r : ArtifactCreateRequest)
    → IsArtifactRequest v r
    → artifact_fields v ≡ clean (some r)
unfolding artifact_fields joined
artifact_fields_of_IsArtifactRequest v r h =
    let read = IsDeclared-AreRead _ _ r.declared_sha256 r.declared_byte_size h.declared in
    rw
      (
        expect_string_of_IsText _ _ (codes "client_artifact_id") h.client_artifact_id,
        expect_string_of_IsText _ _ (codes "conversation_id") h.conversation_id,
        expect_string_of_IsText _ _ (codes "user_id") h.user_id,
        expect_string_of_IsText _ _ (codes "client_turn_id") h.client_turn_id,
        expect_string_of_IsText _ _ (codes "direction") h.direction,
        expect_string_of_IsText _ _ (codes "artifact_type") h.artifact_type,
        expect_string_of_IsText _ _ (codes "mime_type") h.mime_type,
        parse_artifact_capture_of_IsCapture _ _ h.capture,
        direction_of_text r.direction,
        type_of_text r.artifact_type,
        mime_of_allowed r.mime_type h.allowed,
        expect_optional_string_of_IsOptionalText _ _ (codes "declared_sha256") read.is_sha,
        expect_optional_number_of_IsOptionalNumber _ _ (codes "declared_byte_size") read.is_size,
        read.sha_read,
        read.size_read,
        read.paired,
        expect_optional_string_of_IsOptionalText _ _ (codes "original_filename")
            h.original_filename,
        expect_optional_string_of_IsOptionalText _ _ (codes "image_provenance") h.provenance,
        provenance_of_text r.image_provenance,
        expect_optional_string_of_IsOptionalText _ _ (codes "parent_artifact_id") h.parent,
        expect_optional_string_of_IsOptionalText _ _ (codes "source_key") h.source_key,
        expect_optional_string_of_IsOptionalText _ _ (codes "captured_at") h.captured_at,
      )
      refl

abbrev byte_size_read : Value → Checked ℤ
byte_size_read v =
    expect_optional_number (field (codes "declared_byte_size") v) (codes "declared_byte_size")

artifact_fields-IsArtifactRequest :
    (v : Value)
    → is_plain_object v ≡ true
    → (artifact_fields v).issues ≡ []
    → (r : ArtifactCreateRequest) × ((artifact_fields v).value ≡ some r) × IsArtifactRequest v r
unfolding artifact_fields
artifact_fields-IsArtifactRequest v is_object all =
    let (
      h1,
      (
        h2,
        (
          h3,
          (
            h4,
            (
              h5,
              (
                h6,
                (
                  h7,
                  (
                    h8,
                    (
                      h9,
                      (
                        h10,
                        (
                          h11,
                          (
                            h12,
                            (
                              h13,
                              (h14, (h15, (h16, (h17, (h18, (h19, (h20, (h21, (h22, rest))))))))),
                            ),
                          ),
                        ),
                      ),
                    ),
                  ),
                ),
              ),
            ),
          ),
        ),
      ),
    ) =
      joined-nil _ all in
    let (artifact, is_artifact, e1) = expect_string-IsText _ _ h1 in
    let (conversation, is_conversation, e2) = expect_string-IsText _ _ h2 in
    let (account, is_account, e3) = expect_string-IsText _ _ h3 in
    let (turn, is_turn, e4) = expect_string-IsText _ _ h4 in
    let (raw_direction, is_direction, e5) = expect_string-IsText _ _ h5 in
    let (raw_type, is_type, e6) = expect_string-IsText _ _ h6 in
    let (mime, is_mime, e7) = expect_string-IsText _ _ h7 in
    let (capture, e8, is_capture) = parse_artifact_capture-IsCapture _ h8 in
    let (direction, e9, spelled) = direction_of_issues raw_direction (rw e5 at h9) in
    let (e10, typed) = type_of_issues raw_type (rw e6 at h10) in
    let (allowed, e11) = mime_of_issues mime (rw e7 at h11) in
    let provenance = provenance_of_issues _ h19 in
    (
      record {
        client_artifact_id = artifact;
        conversation_id = conversation;
        user_id = account;
        client_turn_id = turn;
        direction = direction;
        artifact_type = image;
        mime_type = mime;
        declared_sha256 = (sha256_of (optional (codes "declared_sha256") v).value).value;
        declared_byte_size = (byte_size_of (byte_size_read v).value).value;
        original_filename = (optional (codes "original_filename") v).value;
        image_provenance = (provenance_of (optional (codes "image_provenance") v).value).value;
        parent_artifact_id = (optional (codes "parent_artifact_id") v).value;
        source_key = (optional (codes "source_key") v).value;
        captured_at = (optional (codes "captured_at") v).value;
        capture = capture;
      },
      rw (e1, e2, e3, e4, e5, e6, e7, e8, e9, e10, e11) refl,
      record {
        is_object = is_object;
        client_artifact_id = is_artifact;
        conversation_id = is_conversation;
        user_id = is_account;
        client_turn_id = is_turn;
        direction = rw spelled at is_direction;
        artifact_type = rw typed at is_type;
        mime_type = is_mime;
        allowed = allowed;
        capture = is_capture;
        declared =
            declared_lem _ _ _ _ (expect_optional_string-IsOptionalText _ _ h12)
              (expect_optional_number-IsOptionalNumber _ _ h14) h13 h15 h16;
        original_filename = expect_optional_string-IsOptionalText _ _ h17;
        provenance =
            subst (IsOptionalText _) provenance (expect_optional_string-IsOptionalText _ _ h18);
        parent = expect_optional_string-IsOptionalText _ _ h20;
        source_key = expect_optional_string-IsOptionalText _ _ h21;
        captured_at = expect_optional_string-IsOptionalText _ _ h22;
      },
    )

request_of_well_formed :
    (o : Option ArtifactCreateRequest) (is : List ValidationIssue) (r : ArtifactCreateRequest)
    → request_of (record { value = o; issues = is }) ≡ well_formed r
    → (is ≡ []) × (o ≡ some r)
unfolding request_of
request_of_well_formed none [] r h = ground arith
request_of_well_formed (some q) [] r h = (refl, ground (arith, h))
request_of_well_formed o (i ∷ is) r h = ground arith

request_of_malformed :
    (o : Option ArtifactCreateRequest) (is later : List ValidationIssue)
    → request_of (record { value = o; issues = is }) ≡ malformed later
    → later ≡ is
unfolding request_of
request_of_malformed none [] later h = ground (arith, h)
request_of_malformed (some q) [] later h = ground arith
request_of_malformed o (i ∷ is) later h = ground (arith, h)

module _ (input : Value) where
  parse_of_object :
      is_plain_object input ≡ true
      → parse_artifact_create_request input ≡ request_of (artifact_fields input)
  unfolding parse_artifact_create_request
  parse_of_object e = rw e refl

  parse_of_other :
      is_plain_object input ≡ false
      → parse_artifact_create_request input
        ≡ malformed ((record { path = []; message = codes "must be an object" }) ∷ [])
  unfolding parse_artifact_create_request
  parse_of_other e = rw e refl

  accepted_without_issues :
      is_plain_object input ≡ true
      → (artifact_fields input).issues ≡ []
      → (r : ArtifactCreateRequest) × (parse_artifact_create_request input ≡ well_formed r)
        × IsArtifactRequest input r
  accepted_without_issues e quiet =
      let (r, same, is_request) = artifact_fields-IsArtifactRequest input e quiet in
      (r, parse_of_object e ∙ unfold request_of in rw (quiet, same) refl, is_request)

  parse_artifact_create_request-IsArtifactRequest :
      (r : ArtifactCreateRequest)
      → parse_artifact_create_request input ≡ well_formed r
      → IsArtifactRequest input r
  parse_artifact_create_request-IsArtifactRequest r h = elim (Bool-cases (is_plain_object input)) [
    | inr e ↦ let bad = sym h ∙ parse_of_other e in ground arith
    | inl e ↦
        let (quiet, there) =
          request_of_well_formed (artifact_fields input).value _ r (sym (parse_of_object e) ∙ h) in
        let (s, same, is_request) = accepted_without_issues e quiet in
        let agree : s ≡ r = ground (arith, sym same ∙ h) in
        subst (IsArtifactRequest input) agree is_request
  ]

  -- A body is accepted exactly when it spells a request of an allowed image, with the checksum and
  -- the size declared together or not at all, and the checksum is put in lower case.
  pub parse_artifact_create_request_iff :
      (r : ArtifactCreateRequest)
      → (parse_artifact_create_request input ≡ well_formed r) ↔ IsArtifactRequest input r
  parse_artifact_create_request_iff r = (
    parse_artifact_create_request-IsArtifactRequest r,
    λ h.
        parse_of_object h.is_object
        ∙ unfold request_of in rw (artifact_fields_of_IsArtifactRequest input r h) refl,
  )

  -- Every refusal names an issue.
  pub parse_artifact_create_request-malformed :
      (issues : List ValidationIssue)
      → parse_artifact_create_request input ≡ malformed issues
      → issues ≢ []
  parse_artifact_create_request-malformed issues h empty =
      elim (Bool-cases (is_plain_object input)) [
        | inr e ↦ let bad = sym h ∙ parse_of_other e in ground arith
        | inl e ↦
            let same =
              request_of_malformed (artifact_fields input).value _ issues
                (sym (parse_of_object e) ∙ h) in
            let (r, accepted, is_request) = accepted_without_issues e (sym same ∙ empty) in
            let bad = sym h ∙ accepted in ground arith
      ]
