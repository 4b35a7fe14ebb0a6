-- ===== src/Capture/Messaging/Bytes.antt =====
-- The binary payloads of apps/extension/src/capture/messaging.ts: `bytesFromByteValues`,
-- `coerceArtifactBytes` and `artifactBytesKind`. An `ArrayBuffer` of another realm is an
-- `array_buffer` too.
use newell_ai.Common.{
  ℕ, zero, suc, ◌+◌, ◌≤◌, ◌<◌, Text, codes, decimal, Option, none, some, Bool, true, false, not,
  ◌&&◌, ◌||◌, List, [], ◌∷◌, ◌≡◌, refl, arith, length, leb, ltb, ◌==◌, if◌then◌else◌, All, le→leb,
  sym, subst, ap,
}
use newell_ai.Common.Int.{pos}
use newell_ai.Artifacts.Allowlist.{artifact_max_bytes}
use newell_ai.Value.{
  Value, undefined, null, boolean, number, nan, string, array, object, array_buffer, byte_array,
  elements, field, Items, no_items, item,
}

-- `typeof v === "number" && Number.isInteger(v) && v >= 0 && v <= 255`
unfoldable pub byte_of : Value → Option ℕ
byte_of (number (pos n)) = if leb n 255 then some n else none
byte_of v = none

abbrev pub with_byte : Option ℕ → Option (List ℕ) → Option (List ℕ)
with_byte none later = none
with_byte (some b) none = none
with_byte (some b) (some bs) = some (b ∷ bs)

-- The loop over `at(i)`, with the number of values that are left.
unfoldable pub bytes_from : ℕ → ℕ → (ℕ → Value) → Option (List ℕ)
unfolding byte_of
bytes_from zero i at = some []
bytes_from (suc n) i at = with_byte (byte_of (at i)) (bytes_from n (suc i) at)

unfoldable pub sized : Value → Option ℕ
sized (number (pos n)) = if n == 0 || ltb artifact_max_bytes n then none else some n
sized v = none

unfoldable pub read_sized : Option ℕ → (ℕ → Value) → Option (List ℕ)
unfolding bytes_from
read_sized none at = none
read_sized (some n) at = bytes_from n 0 at

-- `bytesFromByteValues`
unfoldable pub bytes_from_byte_values : Value → (ℕ → Value) → Option (List ℕ)
unfolding read_sized sized
bytes_from_byte_values size at = read_sized (sized size) at

-- `value[i]` of an array
unfoldable pub element_at : ℕ → List Value → Value
element_at i [] = undefined
element_at zero (v ∷ vs) = v
element_at (suc i) (v ∷ vs) = element_at i vs

abbrev pub whole_buffer : List ℕ → Option (List ℕ)
whole_buffer b = if not (length b == 0) && leb (length b) artifact_max_bytes then some b else none

-- `typeof v === "number"`
abbrev pub is_a_number : Value → Bool
is_a_number (number n) = true
is_a_number nan = true
is_a_number v = false

-- `obj.length`, or else `obj.byteLength`
abbrev pub claimed_length : Value → Option Value
claimed_length obj =
    let len = field (codes "length") obj in
    let byte_len = field (codes "byteLength") obj in
    if is_a_number len then some len else if is_a_number byte_len then some byte_len else none

-- `coerceArtifactBytes`
unfoldable pub coerce_artifact_bytes : Value → Option (List ℕ)
unfolding bytes_from_byte_values element_at
coerce_artifact_bytes (array_buffer b) = whole_buffer b
coerce_artifact_bytes (byte_array b) = whole_buffer b
coerce_artifact_bytes (array vs) =
    bytes_from_byte_values (number (pos (length (elements vs)))) (λ i. element_at i (elements vs))
coerce_artifact_bytes (object ps) = elim (claimed_length (object ps)) [
  | none ↦ none
  | some len ↦ bytes_from_byte_values len (λ i. field (decimal i) (object ps))
]
coerce_artifact_bytes v = none

-- `artifactBytesKind`
unfoldable pub artifact_bytes_kind : Value → Text
artifact_bytes_kind undefined = codes "absent"
artifact_bytes_kind (array_buffer b) = codes "ArrayBuffer"
artifact_bytes_kind (byte_array b) = codes "Uint8Array"
artifact_bytes_kind (array vs) = codes "array"
artifact_bytes_kind null = codes "null"
artifact_bytes_kind (boolean b) = codes "boolean"
artifact_bytes_kind (number n) = codes "number"
artifact_bytes_kind nan = codes "number"
artifact_bytes_kind (string s) = codes "string"
artifact_bytes_kind (object ps) = codes "object"

-- `Array.from(payload.bytes)` of apps/extension/src/content/chatgpt.ts
unfoldable pub wire_bytes : List ℕ → Items
wire_bytes [] = no_items
wire_bytes (b ∷ bs) = item (number (pos b)) (wire_bytes bs)

bytes_from-wire_bytes :
    (bs : List ℕ) (i : ℕ) (at : ℕ → Value)
    → ((k : ℕ) → at (i + k) ≡ element_at k (elements (wire_bytes bs)))
    → All (λ b. b ≤ 255) bs
    → bytes_from (length bs) i at ≡ some bs
unfolding bytes_from byte_of element_at elements wire_bytes
bytes_from-wire_bytes [] i at h small = refl
bytes_from-wire_bytes (b ∷ bs) i at h (low, lows) =
    let here : at i ≡ number (pos b) = subst (λ j. at j ≡ number (pos b)) (omega arith) (h 0) in
    let later : (k : ℕ) → at (suc i + k) ≡ element_at k (elements (wire_bytes bs)) =
      λ k. subst (λ j. at j ≡ element_at k (elements (wire_bytes bs))) (omega arith) (h (suc k)) in
    rw (here, le→leb b 255 low, bytes_from-wire_bytes bs (suc i) at later lows) refl

wire_bytes-length : (bs : List ℕ) → length (elements (wire_bytes bs)) ≡ length bs
unfolding elements wire_bytes
wire_bytes-length [] = refl
wire_bytes-length (b ∷ bs) = ap suc (wire_bytes-length bs)

sized-fits : (n : ℕ) → 0 < n → n ≤ artifact_max_bytes → sized (number (pos n)) ≡ some n
unfolding sized
sized-fits n filled fits = ground arith

-- The service worker reads back exactly the bytes that the content script puts on the wire as an
-- array of numbers, if there are any and at most 25 MiB of them.
pub coerce_artifact_bytes-wire_bytes :
    (bs : List ℕ)
    → All (λ b. b ≤ 255) bs
    → 0 < length bs
    → length bs ≤ artifact_max_bytes
    → coerce_artifact_bytes (array (wire_bytes bs)) ≡ some bs
unfolding coerce_artifact_bytes bytes_from_byte_values
coerce_artifact_bytes-wire_bytes bs small filled fits =
    let read =
      bytes_from-wire_bytes bs 0 (λ i. element_at i (elements (wire_bytes bs)))
        (λ k. ap (λ j. element_at j (elements (wire_bytes bs))) (omega arith)) small in
    subst
      (λ n.
        bytes_from_byte_values (number (pos n)) (λ i. element_at i (elements (wire_bytes bs)))
        ≡ some bs)
      (sym (wire_bytes-length bs))
      (subst (λ o. read_sized o (λ i. element_at i (elements (wire_bytes bs))) ≡ some bs)
        (sym (sized-fits (length bs) filled fits)) (unfold read_sized in read))
