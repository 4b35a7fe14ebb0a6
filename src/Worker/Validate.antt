-- ===== src/Worker/Validate.antt =====
-- The helpers that apps/worker/src/validate/uploadRequest.ts and artifactRequest.ts share. The
-- issues that the source pushes to one list are returned by each check and joined in its order.
pub mod Laws
pub mod Upload
pub mod Artifact
mod Tests
use newell_ai.Common.{
  Text, codes, trim, Option, none, some, Bool, true, false, List, [], ◌∷◌, ◌++◌, if◌then◌else◌,
}
use newell_ai.Common.Int.{ℤ}
use newell_ai.Value.{Value, undefined, null, number, string, is_plain_object}
use newell_ai.Token.{is_empty}

pub record ValidationIssue : Type 0 where
  pub path : Text
  pub message : Text

-- The result of a check and what it pushed to the issues.
pub record Checked (A : Type 0) : Type 0 where
  pub value : Option A
  pub issues : List ValidationIssue

-- A parsed request, or the `issues` of the `HttpError` with the code VALIDATION_ERROR.
pub data Validated (A : Type 0) : Type 0 where
  well_formed : A → Validated A
  malformed : List ValidationIssue → Validated A

abbrev pub clean : {A : Type 0} → Option A → Checked A
clean o = record { value = o; issues = [] }

abbrev pub issue : {A : Type 0} → Text → Text → Checked A
issue path message = record {
  value = none;
  issues = (record { path = path; message = message }) ∷ [];
}

-- The issues of checks in their order.
unfoldable pub joined : List (List ValidationIssue) → List ValidationIssue
joined [] = []
joined (issues ∷ later) = issues ++ joined later

abbrev pub is_blank : Text → Bool
is_blank s = is_empty (trim s)

-- `expectString`
unfoldable pub expect_string : Value → Text → Bool → Checked Text
expect_string undefined path required =
    if required then issue path (codes "required string") else clean none
expect_string null path required =
    if required then issue path (codes "required string") else clean none
expect_string (string s) path required =
    if is_blank s then issue path (codes "must be a non-empty string") else clean (some s)
expect_string v path required = issue path (codes "must be a non-empty string")

-- `expectOptionalString`
unfoldable pub expect_optional_string : Value → Text → Checked Text
unfolding expect_string
expect_optional_string undefined path = clean none
expect_optional_string v path = expect_string v path true

-- `expectOptionalNumber`
unfoldable pub expect_optional_number : Value → Text → Checked ℤ
expect_optional_number undefined path = clean none
expect_optional_number (number n) path = clean (some n)
expect_optional_number v path = issue path (codes "must be a number")

-- The early return for a value that is not an object.
unfoldable pub object_or : {A : Type 0} → Value → Text → Checked A → Checked A
object_or value path checked =
    if is_plain_object value then checked else issue path (codes "must be an object")
