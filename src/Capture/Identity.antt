-- ===== src/Capture/Identity.antt =====
-- apps/extension/src/capture/chatgpt/identity.ts, and `coalesceCandidates` of observe.ts without the
-- elements of the page. SHA-256 in hexadecimal is the parameter `sha256_hex`.
pub mod Laws
mod Tests
use newell_ai.Common.{
  ℕ, zero, suc, ◌+◌, Text, codes, text_eq, trim, decimal, Option, none, some, Bool, true, false,
  not, ◌&&◌, ◌||◌, List, [], ◌∷◌, ◌++◌, any, take, length, ltb, leb, ◌==◌, if◌then◌else◌,
}
use newell_ai.Common.Keys.{text_order}
use newell_ai.Contracts.{Speaker, user, assistant}
use newell_ai.Idb.{put, get}
use newell_ai.Queue.Enqueue.{is_control, max_source_key_length}

-- `isValidSourceProvidedId`, with the trimmed id
abbrev pub source_id_of : Text → Option Text
source_id_of trimmed =
    if length trimmed == 0 || ltb max_source_key_length (length trimmed)
    then none
    else if any is_control trimmed
    then none
    else some trimmed

unfoldable pub valid_source_provided_id : Option Text → Option Text
unfolding any
valid_source_provided_id none = none
valid_source_provided_id (some value) = source_id_of (trim value)

abbrev pub speaker_word : Speaker → Text
speaker_word user = codes "user"
speaker_word assistant = codes "assistant"

-- `${conversationId}|${speaker}|${text}|${index}`
unfoldable pub key_text : Text → Speaker → Text → ℕ → Text
unfolding decimal
key_text conversation_id speaker text index =
    conversation_id
    ++ codes "|"
    ++ speaker_word speaker
    ++ codes "|"
    ++ text
    ++ codes "|"
    ++ decimal index

pub record TurnForIdentity : Type 0 where
  pub speaker : Speaker
  pub text : Text
  pub source_provided_id : Option Text

pub record TurnWithSourceKey : Type 0 where
  pub turn : TurnForIdentity
  pub source_key : Text

-- An entry of the map `occurrence`.
pub record Occurrence : Type 0 where
  pub bucket : Text
  pub count : ℕ

abbrev pub bucket_key : Occurrence → Text
bucket_key o = o.bucket

-- `${turn.speaker}\0${turn.text}`
unfoldable pub bucket_of : TurnForIdentity → Text
bucket_of t = speaker_word t.speaker ++ (0 ∷ t.text)

abbrev pub count_of : Option Occurrence → ℕ
count_of none = 0
count_of (some o) = o.count

module _ (sha256_hex : Text → Text) where
  -- `buildSyntheticSourceKey`
  unfoldable pub build_synthetic_source_key : Text → Speaker → Text → ℕ → Text
  unfolding key_text any
  build_synthetic_source_key conversation_id speaker text index =
      let literal = key_text conversation_id speaker text index in
      let compact = key_text conversation_id speaker (codes "h:" ++ sha256_hex text) index in
      if leb (length literal) max_source_key_length && not (any is_control literal)
      then literal
      else if ltb max_source_key_length (length compact)
      then take max_source_key_length (codes "h:" ++ sha256_hex literal)
      else compact

  -- One turn of the loop, with what becomes of `occurrence`.
  unfoldable pub key_turn :
      Text → List Occurrence → TurnForIdentity → Option Text → Text × List Occurrence
  unfolding build_synthetic_source_key bucket_of
  key_turn conversation_id seen t (some id) = (id, seen)
  key_turn conversation_id seen t none =
      let index = count_of (get bucket_key (bucket_of t) seen) in
      (
        build_synthetic_source_key conversation_id t.speaker t.text index,
        put bucket_key (record { bucket = bucket_of t; count = index + 1 }) seen,
      )

  unfoldable pub assign_from :
      Text → List Occurrence → List TurnForIdentity → List TurnWithSourceKey
  unfolding key_turn valid_source_provided_id
  assign_from conversation_id seen [] = []
  assign_from conversation_id seen (t ∷ turns) =
      let (key, seen') =
        key_turn conversation_id seen t (valid_source_provided_id t.source_provided_id) in
      record { turn = t; source_key = key } ∷ assign_from conversation_id seen' turns

  -- `assignSourceKeys`
  unfoldable pub assign_source_keys : Text → List TurnForIdentity → List TurnWithSourceKey
  unfolding assign_from
  assign_source_keys conversation_id turns = assign_from conversation_id [] turns

pub record ObserveCandidate : Type 0 where
  pub speaker : Speaker
  pub text : Text
  pub source_provided_id : Option Text

abbrev pub with_id : ObserveCandidate → Option Text → ObserveCandidate
with_id c id = record c { source_provided_id = id }

-- One candidate, kept or dropped, in front of the rest.
unfoldable pub coalesce_one :
    List Text
    → ObserveCandidate
    → Option Text
    → (List Text → List ObserveCandidate)
    → List ObserveCandidate
coalesce_one seen c none next = with_id c none ∷ next seen
coalesce_one seen c (some id) next =
    if any (text_eq id) seen then next seen else with_id c (some id) ∷ next (id ∷ seen)

unfoldable pub coalesce_from : List Text → List ObserveCandidate → List ObserveCandidate
unfolding coalesce_one valid_source_provided_id any
coalesce_from seen [] = []
coalesce_from seen (c ∷ candidates) =
    coalesce_one seen c (valid_source_provided_id c.source_provided_id)
      (λ seen'. coalesce_from seen' candidates)

-- `coalesceCandidates`
unfoldable pub coalesce_candidates : List ObserveCandidate → List ObserveCandidate
unfolding coalesce_from
coalesce_candidates candidates = coalesce_from [] candidates
