-- ===== src/Capture/Identity/Laws.antt =====
-- The keys of a scan are the same in every later one, and fit the queue's bounds.
use newell_ai.Common.{
  ℕ, ◌≤◌, Text, codes, trim, Option, none, some, not, ◌&&◌, List, [], ◌∷◌, ◌++◌, any, take, length,
  ltb, leb, ◌≡◌, refl, ap, inl, inr, Bool-cases, arith, All, length-take-le,
}
use newell_ai.Common.Keys.{text_order}
use newell_ai.Idb.{get}
use newell_ai.Contracts.{Speaker}
use newell_ai.Queue.Enqueue.{is_control, max_source_key_length}
use newell_ai.Capture.Identity.{
  count_of, bucket_key, bucket_of, TurnForIdentity, TurnWithSourceKey, Occurrence, source_id_of,
  valid_source_provided_id, key_text, build_synthetic_source_key, key_turn, assign_from,
  assign_source_keys,
}

abbrev IsFitting : Text → Type 0
IsFitting key = (1 ≤ length key) × (length key ≤ max_source_key_length)

key_text_filled :
    (conversation_id : Text) (speaker : Speaker) (text : Text) (index : ℕ)
    → 1 ≤ length (key_text conversation_id speaker text index)
unfolding key_text codes
key_text_filled [] speaker text index = omega arith
key_text_filled (c ∷ conversation_id) speaker text index = omega arith

module _ (sha256_hex : Text → Text) where
  assign_from_prefix :
      (conversation_id : Text) (seen : List Occurrence) (turns later : List TurnForIdentity)
      → take (length turns) (assign_from sha256_hex conversation_id seen (turns ++ later))
        ≡ assign_from sha256_hex conversation_id seen turns
  unfolding assign_from
  assign_from_prefix conversation_id seen [] later = refl
  assign_from_prefix conversation_id seen (t ∷ turns) later =
      let step =
        key_turn sha256_hex conversation_id seen t
          (valid_source_provided_id t.source_provided_id) in
      let first : TurnWithSourceKey = record { turn = t; source_key = step.0 } in
      ap (λ ks. first ∷ ks) (assign_from_prefix conversation_id step.1 turns later)

  hashed-IsFitting :
      (s : Text) → IsFitting (take max_source_key_length (codes "h:" ++ sha256_hex s))
  unfolding codes
  hashed-IsFitting s =
      (omega arith, length-take-le max_source_key_length (codes "h:" ++ sha256_hex s))

  build_synthetic_source_key-IsFitting :
      (conversation_id : Text) (speaker : Speaker) (text : Text) (index : ℕ)
      → IsFitting (build_synthetic_source_key sha256_hex conversation_id speaker text index)
  unfolding build_synthetic_source_key
  build_synthetic_source_key-IsFitting conversation_id speaker text index =
      let literal = key_text conversation_id speaker text index in
      let compact = key_text conversation_id speaker (codes "h:" ++ sha256_hex text) index in
      let filled = key_text_filled conversation_id speaker text index in
      let filled' = key_text_filled conversation_id speaker (codes "h:" ++ sha256_hex text) index in
      elim (Bool-cases
        (leb (length literal) max_source_key_length && not (any is_control literal))) [
          | inl e ↦ rw e (ground (arith, filled, e))
          | inr e ↦ elim (Bool-cases (ltb max_source_key_length (length compact))) [
            | inl l ↦ rw (e, l) (hashed-IsFitting literal)
            | inr l ↦ rw (e, l) (ground (arith, filled', l))
          ]
        ]

  source_id-IsFitting :
      (o : Option Text) (id : Text) → valid_source_provided_id o ≡ some id → IsFitting id
  unfolding valid_source_provided_id
  source_id-IsFitting none id e = cc
  source_id-IsFitting (some value) id e = from (trim value) e
    where
      from : (t : Text) → source_id_of t ≡ some id → IsFitting id
      from t e = ground (arith, e)

  key_turn-IsFitting :
      (conversation_id : Text) (seen : List Occurrence) (t : TurnForIdentity) (o : Option Text)
      → ((id : Text) → o ≡ some id → IsFitting id)
      → IsFitting (key_turn sha256_hex conversation_id seen t o).0
  unfolding key_turn
  key_turn-IsFitting conversation_id seen t none h =
      build_synthetic_source_key-IsFitting conversation_id t.speaker t.text
        (count_of (get bucket_key (bucket_of t) seen))
  key_turn-IsFitting conversation_id seen t (some id) h = h id refl

  assign_from-IsFitting :
      (conversation_id : Text) (seen : List Occurrence) (turns : List TurnForIdentity)
      → All
          (λ (k : TurnWithSourceKey). IsFitting k.source_key)
          (assign_from sha256_hex conversation_id seen turns)
  unfolding assign_from
  assign_from-IsFitting conversation_id seen [] = tt
  assign_from-IsFitting conversation_id seen (t ∷ turns) = (
    key_turn-IsFitting conversation_id seen t (valid_source_provided_id t.source_provided_id)
        (source_id-IsFitting t.source_provided_id),
    assign_from-IsFitting conversation_id
        (key_turn sha256_hex conversation_id seen t
          (valid_source_provided_id t.source_provided_id)).1
        turns,
  )

  -- The keys of a scan are those that a later scan gives the same turns when more turns stand behind
  -- them, and each key is not empty and within the queue's bound.
  pub assign_source_keys_prefix :
      (conversation_id : Text) (turns later : List TurnForIdentity)
      → (take (length turns) (assign_source_keys sha256_hex conversation_id (turns ++ later))
          ≡ assign_source_keys sha256_hex conversation_id turns)
        × All
            (λ (k : TurnWithSourceKey).
              (1 ≤ length k.source_key) × (length k.source_key ≤ max_source_key_length))
            (assign_source_keys sha256_hex conversation_id turns)
  unfolding assign_source_keys
  assign_source_keys_prefix conversation_id turns later = (
    assign_from_prefix conversation_id [] turns later,
    assign_from-IsFitting conversation_id [] turns,
  )
