-- ===== src/Worker/Validate/Upload/Turns.antt =====
-- Exactly which values `parseTurn` accepts, and the loop over the turns.
use newell_ai.Common.{
  ℕ, suc, Text, codes, text_eq, text_eq_iff, some, true, List, [], ◌∷◌, ◌++◌, ◌≡◌, refl, ◌∙◌, inl,
  inr, Bool-cases, arith,
}
use newell_ai.Contracts.{Speaker, user, assistant, TurnPayload}
use newell_ai.Value.{Value, field, is_plain_object}
use newell_ai.Worker.Validate.{clean, joined}
use newell_ai.Worker.Validate.Laws.{
  joined-nil, append_nil, object_or_lem, object_or_of_object, IsText, IsOptionalText,
  IsOptionalNumber, expect_string_of_IsText, expect_string-IsText,
  expect_optional_string_of_IsOptionalText, expect_optional_string-IsOptionalText,
  expect_optional_number_of_IsOptionalNumber, expect_optional_number-IsOptionalNumber,
}
use newell_ai.Worker.Validate.Upload.{turn_fields, speaker_of, parse_turn, parse_turns, turn_base}

abbrev pub speaker_text : Speaker → Text
speaker_text user = codes "user"
speaker_text assistant = codes "assistant"

pub record IsTurn (v : Value) (t : TurnPayload) : Type 0 where
  pub object : is_plain_object v ≡ true
  pub client_turn_id : IsText (field (codes "client_turn_id") v) t.client_turn_id
  pub speaker : IsText (field (codes "speaker") v) (speaker_text t.speaker)
  pub text : IsText (field (codes "text") v) t.text
  pub captured_at : IsOptionalText (field (codes "captured_at") v) t.captured_at
  pub sequence : IsOptionalNumber (field (codes "sequence") v) t.sequence
  pub parent : IsOptionalText (field (codes "parent_client_turn_id") v) t.parent_client_turn_id
  pub message_type : IsOptionalText (field (codes "message_type") v) t.message_type
  pub topic : IsOptionalText (field (codes "topic") v) t.topic

speaker_of_text :
    (s : Speaker) (path : Text) → speaker_of (some (speaker_text s)) path ≡ clean (some s)
unfolding speaker_of codes text_eq
speaker_of_text user path = refl
speaker_of_text assistant path = refl

speaker_of_issues :
    (raw path : Text)
    → (speaker_of (some raw) path).issues ≡ []
    → (s : Speaker) × (speaker_of (some raw) path ≡ clean (some s)) × (raw ≡ speaker_text s)
unfolding speaker_of
speaker_of_issues raw path h = elim (Bool-cases (text_eq raw (codes "user"))) [
  | inl e ↦ (user, rw e refl, (text_eq_iff _ _).0 e)
  | inr e ↦ elim (Bool-cases (text_eq raw (codes "assistant"))) [
    | inl f ↦ (assistant, rw (e, f) refl, (text_eq_iff _ _).0 f)
    | inr f ↦ ground arith
  ]
]

turn_fields_of_IsTurn :
    (v : Value) (base : Text) (t : TurnPayload) → IsTurn v t → turn_fields v base ≡ clean (some t)
unfolding joined
turn_fields_of_IsTurn v base t h =
    rw
      (
        expect_string_of_IsText _ _ (base ++ codes ".client_turn_id") h.client_turn_id,
        expect_string_of_IsText _ _ (base ++ codes ".speaker") h.speaker,
        expect_string_of_IsText _ _ (base ++ codes ".text") h.text,
        speaker_of_text t.speaker (base ++ codes ".speaker"),
        expect_optional_string_of_IsOptionalText _ _ (base ++ codes ".captured_at") h.captured_at,
        expect_optional_number_of_IsOptionalNumber _ _ (base ++ codes ".sequence") h.sequence,
        expect_optional_string_of_IsOptionalText _ _ (base ++ codes ".parent_client_turn_id")
            h.parent,
        expect_optional_string_of_IsOptionalText _ _ (base ++ codes ".message_type") h.message_type,
        expect_optional_string_of_IsOptionalText _ _ (base ++ codes ".topic") h.topic,
      )
      refl

parse_turn_of_IsTurn :
    (v : Value) (index : ℕ) (t : TurnPayload) → IsTurn v t → parse_turn v index ≡ clean (some t)
unfolding parse_turn
parse_turn_of_IsTurn v index t h =
    object_or_of_object v _ _ h.object ∙ turn_fields_of_IsTurn v (turn_base index) t h

parse_turn-IsTurn :
    (v : Value) (index : ℕ)
    → (parse_turn v index).issues ≡ []
    → (t : TurnPayload) × ((parse_turn v index).value ≡ some t) × IsTurn v t
unfolding parse_turn
parse_turn-IsTurn v index h =
    let base = turn_base index in
    let (object, all, same) = object_or_lem v _ (turn_fields v base) h in
    let (h1, (h2, (h3, (h4, (h5, (h6, (h7, (h8, (h9, rest))))))))) = joined-nil _ all in
    let (id, is_id, e1) = expect_string-IsText _ _ h1 in
    let (raw, is_raw, e2) = expect_string-IsText _ _ h2 in
    let (body, is_body, e3) = expect_string-IsText _ _ h3 in
    let (by, e4, is_by) = speaker_of_issues raw (base ++ codes ".speaker") (rw e2 at h4) in
    (
      _,
      rw (same, e1, e2, e3, e4) refl,
      record {
        object = object;
        client_turn_id = is_id;
        speaker = rw is_by at is_raw;
        text = is_body;
        captured_at = expect_optional_string-IsOptionalText _ _ h5;
        sequence = expect_optional_number-IsOptionalNumber _ _ h6;
        parent = expect_optional_string-IsOptionalText _ _ h7;
        message_type = expect_optional_string-IsOptionalText _ _ h8;
        topic = expect_optional_string-IsOptionalText _ _ h9;
      },
    )

-- One value for each turn, in the same order.
abbrev pub AreTurns : List Value → List TurnPayload → Type 0
AreTurns [] [] = Unit
AreTurns [] (t ∷ ts) = ⊥
AreTurns (v ∷ vs) [] = ⊥
AreTurns (v ∷ vs) (t ∷ ts) = IsTurn v t × AreTurns vs ts

pub parse_turns_of_AreTurns :
    (index : ℕ) (vs : List Value) (ts : List TurnPayload)
    → AreTurns vs ts
    → parse_turns index vs ≡ (ts, [])
unfolding parse_turns
parse_turns_of_AreTurns index [] [] h = refl
parse_turns_of_AreTurns index [] (t ∷ ts) h = elim h [ ]
parse_turns_of_AreTurns index (v ∷ vs) [] h = elim h [ ]
parse_turns_of_AreTurns index (v ∷ vs) (t ∷ ts) (h, hs) =
    rw (parse_turn_of_IsTurn v index t h, parse_turns_of_AreTurns (suc index) vs ts hs) refl

pub parse_turns-AreTurns :
    (index : ℕ) (vs : List Value)
    → (parse_turns index vs).1 ≡ []
    → AreTurns vs (parse_turns index vs).0
unfolding parse_turns
parse_turns-AreTurns index [] h = tt
parse_turns-AreTurns index (v ∷ vs) h =
    let (here, later) = append_nil _ _ h in
    let (t, e, is_turn) = parse_turn-IsTurn v index here in
    rw e (is_turn, parse_turns-AreTurns (suc index) vs later)
