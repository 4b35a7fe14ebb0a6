-- ===== src/Worker/Associate.antt =====
-- apps/worker/src/recall/associate.ts: the artifacts of a conversation are put to its turns. An
-- object is its position in the list of the artifacts, so the set `claimed` is a mark on each of
-- them, and what a map gives for a key is what the list has under it, in its order.
pub mod Laws
mod Tests
use newell_ai.Common.{
  ℕ, ◌+◌, Text, text_eq, Option, none, some, Bool, true, false, not, ◌&&◌, List, [], ◌∷◌, map,
  filter, length, ◌==◌, if◌then◌else◌, count_if,
}

pub record TurnKey : Type 0 where
  pub turn_id : Text
  pub client_turn_id : Text

pub record ArtifactLinkKey : Type 0 where
  pub turn_id : Option Text
  pub client_turn_id : Text
  pub artifact_id : Option Text

pub record Mark : Type 0 where
  pub artifact : ArtifactLinkKey
  pub claimed : Bool

pub record Row : Type 0 where
  pub turn : TurnKey
  pub artifacts : List ArtifactLinkKey

pub record Diagnostics : Type 0 where
  pub artifact_count : ℕ
  pub linked_count : ℕ
  pub unlinked_count : ℕ
  pub with_turn_id : ℕ
  pub with_client_turn_id : ℕ
  pub turn_id_null : ℕ

pub record AssociateResult : Type 0 where
  pub rows : List Row
  pub unlinked : List ArtifactLinkKey
  pub diagnostics : Diagnostics

abbrev pub has_units : Text → Bool
has_units [] = false
has_units (c ∷ s) = true

-- `if (art.turn_id)`
abbrev pub has_turn_id : ArtifactLinkKey → Bool
has_turn_id a = elim a.turn_id [ none ↦ false | some t ↦ has_units t ]

abbrev pub has_client_turn_id : ArtifactLinkKey → Bool
has_client_turn_id a = has_units a.client_turn_id

-- What `byTurnId` has under the id of the turn.
unfoldable pub by_turn_id : TurnKey → ArtifactLinkKey → Bool
by_turn_id turn a =
    has_turn_id a && elim a.turn_id [ none ↦ false | some t ↦ text_eq t turn.turn_id ]

-- What `byClientTurnId` has under the client's id of the turn.
unfoldable pub by_client_turn_id : TurnKey → ArtifactLinkKey → Bool
by_client_turn_id turn a = has_client_turn_id a && text_eq a.client_turn_id turn.client_turn_id

-- The loop that claims those of a list that are not claimed yet.
unfoldable pub claim : (ArtifactLinkKey → Bool) → List Mark → List ArtifactLinkKey × List Mark
claim p [] = ([], [])
claim p (m ∷ marks) =
    let later = claim p marks in
    if not m.claimed && p m.artifact
    then (m.artifact ∷ later.0, record { artifact = m.artifact; claimed = true } ∷ later.1)
    else (later.0, m ∷ later.1)

unfoldable pub link_turn : TurnKey → List Mark → List ArtifactLinkKey × List Mark
unfolding claim by_turn_id by_client_turn_id
link_turn turn marks =
    let (matched, marks') = claim (by_turn_id turn) marks in
    if length matched == 0 then claim (by_client_turn_id turn) marks' else (matched, marks')

-- `turns.map`
unfoldable pub link_turns : List TurnKey → List Mark → List Row × List Mark
unfolding link_turn
link_turns [] marks = ([], marks)
link_turns (turn ∷ turns) marks =
    let (matched, marks') = link_turn turn marks in
    let (rows, marks'') = link_turns turns marks' in
    (record { turn = turn; artifacts = matched } ∷ rows, marks'')

abbrev pub unmarked : ArtifactLinkKey → Mark
unmarked a = record { artifact = a; claimed = false }

abbrev pub is_claimed : Mark → Bool
is_claimed m = m.claimed

-- `artifacts.filter((art) => !claimed.has(art))`
unfoldable pub unclaimed : List Mark → List ArtifactLinkKey
unclaimed [] = []
unclaimed (m ∷ marks) =
    let later = unclaimed marks in if m.claimed then later else m.artifact ∷ later

-- `associateArtifactsToTurns`
unfoldable pub associate_artifacts_to_turns : List TurnKey → List ArtifactLinkKey → AssociateResult
unfolding link_turns unclaimed count_if
associate_artifacts_to_turns turns artifacts =
    let (rows, marks) = link_turns turns (map unmarked artifacts) in
    let unlinked = unclaimed marks in
    record {
      rows = rows;
      unlinked = unlinked;
      diagnostics = record {
        artifact_count = length artifacts;
        linked_count = count_if is_claimed marks;
        unlinked_count = length unlinked;
        with_turn_id = count_if has_turn_id artifacts;
        with_client_turn_id = count_if has_client_turn_id artifacts;
        turn_id_null = count_if (λ a. not (has_turn_id a)) artifacts;
      };
    }
