-- ===== src/Value.antt =====
-- The values that code of the type `unknown` may meet: what JSON spells, and the buffers that a
-- message of the browser can carry. Numbers are integers, or `nan`; other fractions are left out.
use newell_ai.Common.{ℕ, Text, text_eq, Bool, true, false, List, [], ◌∷◌, if◌then◌else◌}
use newell_ai.Common.Int.{ℤ}

mutual
  pub data Value : Type 0 where
    undefined : Value
    null : Value
    boolean : Bool → Value
    number : ℤ → Value
    nan : Value
    string : Text → Value
    array : Items → Value
    object : Props → Value
    array_buffer : List ℕ → Value
    byte_array : List ℕ → Value

  pub data Items : Type 0 where
    no_items : Items
    item : Value → Items → Items

  pub data Props : Type 0 where
    no_props : Props
    prop : Text → Value → Props → Props

-- The elements of an array.
unfoldable pub elements : Items → List Value
elements no_items = []
elements (item v vs) = v ∷ elements vs

unfoldable pub lookup : Text → Props → Value
lookup k no_props = undefined
lookup k (prop name v ps) = let rest = lookup k ps in if text_eq k name then v else rest

-- `value[k]` of an object; the other values have none of the properties that are read.
unfoldable pub field : Text → Value → Value
unfolding lookup
field k (object ps) = lookup k ps
field k v = undefined

-- `typeof value === "object" && value !== null && !Array.isArray(value)`
unfoldable pub is_plain_object : Value → Bool
is_plain_object (object ps) = true
is_plain_object (array_buffer b) = true
is_plain_object (byte_array b) = true
is_plain_object v = false
