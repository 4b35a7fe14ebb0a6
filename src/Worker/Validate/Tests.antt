-- ===== src/Worker/Validate/Tests.antt =====
-- Requests as JSON values, and the theorems at concrete inputs.
use newell_ai.Worker.Artifacts.{is_allowed_image_mime}
use newell_ai.Common.{any, codes, none, some, List, [], ◌∷◌, ◌≡◌, ◌≢◌, ◌↔◌, refl, trim, text_eq}
use newell_ai.Contracts.{ArtifactCreateRequest, user_uploaded, image, screenshot}
use newell_ai.Value.{
  is_plain_object, field, elements, Value, string, object, no_items, item, no_props, prop,
}
use newell_ai.Worker.Samples.{capture_body, turn_body, body_with, upload}
use newell_ai.Worker.Validate.{
  joined, expect_string, expect_optional_string, expect_optional_number, ValidationIssue,
  well_formed, malformed,
}
use newell_ai.Worker.Validate.Upload.{speaker_of, parse_upload_request}
use newell_ai.Worker.Validate.Upload.Request.{
  IsUpload, parse_upload_request_iff, parse_upload_request-malformed,
}
use newell_ai.Worker.Validate.Artifact.{parse_artifact_create_request}
use newell_ai.Worker.Validate.Artifact.Laws.{IsArtifactRequest, parse_artifact_create_request_iff}

accepted_upload : parse_upload_request (body_with (item turn_body no_items)) ≡ well_formed upload
unfolding parse_upload_request is_plain_object joined field text_eq codes expect_string trim
    expect_optional_string elements speaker_of expect_optional_number
accepted_upload = refl

parse_upload_request_iff_example :
    (parse_upload_request (body_with (item turn_body no_items)) ≡ well_formed upload)
    ↔ IsUpload (body_with (item turn_body no_items)) upload
parse_upload_request_iff_example =
    parse_upload_request_iff (body_with (item turn_body no_items)) upload

abbrev empty_turns : List ValidationIssue
empty_turns = (record { path = codes "turns"; message = codes "must be a non-empty array" }) ∷ []

without_turns : parse_upload_request (body_with no_items) ≡ malformed empty_turns
unfolding parse_upload_request is_plain_object joined field text_eq codes expect_string trim
    expect_optional_string elements
without_turns = refl

parse_upload_request-malformed_example : empty_turns ≢ []
parse_upload_request-malformed_example =
    parse_upload_request-malformed (body_with no_items) empty_turns without_turns

abbrev artifact_body : Value
artifact_body = object (
    prop (codes "client_artifact_id") (string (codes "a")) (
      prop (codes "conversation_id") (string (codes "c")) (
        prop (codes "user_id") (string (codes "u")) (
          prop (codes "client_turn_id") (string (codes "t")) (
            prop (codes "direction") (string (codes "user_uploaded")) (
              prop (codes "artifact_type") (string (codes "image")) (
                prop (codes "mime_type") (string (codes "image/png")) (
                  prop (codes "image_provenance") (string (codes "screenshot"))
                    (prop (codes "capture") capture_body no_props)))))))))

abbrev artifact_request : ArtifactCreateRequest
artifact_request = record {
  client_artifact_id = codes "a";
  conversation_id = codes "c";
  user_id = codes "u";
  client_turn_id = codes "t";
  direction = user_uploaded;
  artifact_type = image;
  mime_type = codes "image/png";
  declared_sha256 = none;
  declared_byte_size = none;
  original_filename = none;
  image_provenance = some screenshot;
  parent_artifact_id = none;
  source_key = none;
  captured_at = none;
  capture = upload.capture;
}

accepted_artifact : parse_artifact_create_request artifact_body ≡ well_formed artifact_request
unfolding parse_artifact_create_request is_plain_object joined expect_string field text_eq codes
    trim expect_optional_string is_allowed_image_mime any expect_optional_number
accepted_artifact = refl

parse_artifact_create_request_iff_example :
    (parse_artifact_create_request artifact_body ≡ well_formed artifact_request)
    ↔ IsArtifactRequest artifact_body artifact_request
parse_artifact_create_request_iff_example =
    parse_artifact_create_request_iff artifact_body artifact_request
