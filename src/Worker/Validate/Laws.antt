-- ===== src/Worker/Validate/Laws.antt =====
-- What the helpers accept, and when they report nothing.
use newell_ai.Common.{
  All, Text, Option, none, some, true, false, List, [], ◌∷◌, ◌++◌, ◌≡◌, refl, ◌⊎◌, inl, inr,
  Bool-cases, arith,
}
use newell_ai.Common.Int.{ℤ}
use newell_ai.Value.{
  Value, undefined, null, boolean, number, nan, string, array, object, array_buffer, byte_array,
  is_plain_object,
}
use newell_ai.Worker.Validate.{
  ValidationIssue, joined, Checked, clean, is_blank, object_or, expect_string,
  expect_optional_string, expect_optional_number,
}

-- A string with more than space.
abbrev pub IsText : Value → Text → Type 0
IsText v s = (v ≡ string s) × (is_blank s ≡ false)

-- Such a string, or the value is missing.
abbrev pub IsOptionalText : Value → Option Text → Type 0
IsOptionalText v none = v ≡ undefined
IsOptionalText v (some s) = IsText v s

abbrev pub IsOptionalNumber : Value → Option ℤ → Type 0
IsOptionalNumber v none = v ≡ undefined
IsOptionalNumber v (some n) = v ≡ number n

pub append_nil : {A : Type 0} (xs ys : List A) → xs ++ ys ≡ [] → (xs ≡ []) × (ys ≡ [])
append_nil [] ys h = (refl, h)
append_nil (x ∷ xs) ys h = ground arith

pub joined-nil : (xs : List (List ValidationIssue)) → joined xs ≡ [] → All (λ x. x ≡ []) xs
unfolding joined
joined-nil [] h = tt
joined-nil (x ∷ xs) h =
    let (here, later) = append_nil x (joined xs) h in (here, joined-nil xs later)

pub expect_string_of_IsText :
    (v : Value) (s path : Text) → IsText v s → expect_string v path true ≡ clean (some s)
unfolding expect_string
expect_string_of_IsText v s path (e, plain) = rw (e, plain) refl

pub expect_string-IsText :
    (v : Value) (path : Text)
    → (expect_string v path true).issues ≡ []
    → (s : Text) × IsText v s × (expect_string v path true ≡ clean (some s))
unfolding expect_string
expect_string-IsText undefined path h = ground arith
expect_string-IsText null path h = ground arith
expect_string-IsText (boolean b) path h = ground arith
expect_string-IsText (number n) path h = ground arith
expect_string-IsText nan path h = ground arith
expect_string-IsText (string s) path h = elim (Bool-cases (is_blank s)) [
  | inl e ↦ ground arith
  | inr e ↦ (s, (refl, e), rw e refl)
]
expect_string-IsText (array vs) path h = ground arith
expect_string-IsText (object ps) path h = ground arith
expect_string-IsText (array_buffer b) path h = ground arith
expect_string-IsText (byte_array b) path h = ground arith

expect_optional_string_lem :
    (v : Value) (path : Text)
    → (v ≡ undefined) × (expect_optional_string v path ≡ clean none)
      ⊎ (expect_optional_string v path ≡ expect_string v path true)
unfolding expect_optional_string
expect_optional_string_lem undefined path = inl (refl, refl)
expect_optional_string_lem null path = inr refl
expect_optional_string_lem (boolean b) path = inr refl
expect_optional_string_lem (number n) path = inr refl
expect_optional_string_lem nan path = inr refl
expect_optional_string_lem (string s) path = inr refl
expect_optional_string_lem (array vs) path = inr refl
expect_optional_string_lem (object ps) path = inr refl
expect_optional_string_lem (array_buffer b) path = inr refl
expect_optional_string_lem (byte_array b) path = inr refl

pub expect_optional_string_of_IsOptionalText :
    (v : Value) (o : Option Text) (path : Text)
    → IsOptionalText v o
    → expect_optional_string v path ≡ clean o
unfolding expect_optional_string expect_string
expect_optional_string_of_IsOptionalText v none path e = rw e refl
expect_optional_string_of_IsOptionalText v (some s) path (e, plain) = rw (e, plain) refl

pub expect_optional_string-IsOptionalText :
    (v : Value) (path : Text)
    → (expect_optional_string v path).issues ≡ []
    → IsOptionalText v (expect_optional_string v path).value
expect_optional_string-IsOptionalText v path h = elim (expect_optional_string_lem v path) [
  | inl (e, missing) ↦ rw missing e
  | inr same ↦
      let quiet : (expect_string v path true).issues ≡ [] = rw same at h in
      let (s, is_text, accepted) = expect_string-IsText v path quiet in rw (same, accepted) is_text
]

pub expect_optional_number_of_IsOptionalNumber :
    (v : Value) (o : Option ℤ) (path : Text)
    → IsOptionalNumber v o
    → expect_optional_number v path ≡ clean o
unfolding expect_optional_number
expect_optional_number_of_IsOptionalNumber v none path e = rw e refl
expect_optional_number_of_IsOptionalNumber v (some n) path e = rw e refl

pub expect_optional_number-IsOptionalNumber :
    (v : Value) (path : Text)
    → (expect_optional_number v path).issues ≡ []
    → IsOptionalNumber v (expect_optional_number v path).value
unfolding expect_optional_number
expect_optional_number-IsOptionalNumber undefined path h = refl
expect_optional_number-IsOptionalNumber null path h = ground arith
expect_optional_number-IsOptionalNumber (boolean b) path h = ground arith
expect_optional_number-IsOptionalNumber (number n) path h = refl
expect_optional_number-IsOptionalNumber nan path h = ground arith
expect_optional_number-IsOptionalNumber (string s) path h = ground arith
expect_optional_number-IsOptionalNumber (array vs) path h = ground arith
expect_optional_number-IsOptionalNumber (object ps) path h = ground arith
expect_optional_number-IsOptionalNumber (array_buffer b) path h = ground arith
expect_optional_number-IsOptionalNumber (byte_array b) path h = ground arith

pub object_or_lem :
    {A : Type 0} (v : Value) (path : Text) (c : Checked A)
    → (object_or v path c).issues ≡ []
    → (is_plain_object v ≡ true) × (c.issues ≡ []) × (object_or v path c ≡ c)
unfolding object_or
object_or_lem v path c h = elim (Bool-cases (is_plain_object v)) [
  | inl e ↦ (e, rw e at h, rw e refl)
  | inr e ↦ ground arith
]

pub object_or_of_object :
    {A : Type 0} (v : Value) (path : Text) (c : Checked A)
    → is_plain_object v ≡ true
    → object_or v path c ≡ c
unfolding object_or
object_or_of_object v path c h = rw h refl
