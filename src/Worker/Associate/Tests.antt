-- ===== src/Worker/Associate/Tests.antt =====
-- The association on small lists, and its theorem at a concrete input.
use newell_ai.Common.{Text, codes, text_eq, Option, none, some, List, [], ◌∷◌, ◌≡◌, refl}
use newell_ai.Worker.Associate.{TurnKey, ArtifactLinkKey, associate_artifacts_to_turns}
use newell_ai.Worker.Associate.Laws.{IsAssociated, associate_artifacts_to_turns-IsAssociated}

abbrev turns : List TurnKey
turns =
    record { turn_id = codes "t1"; client_turn_id = codes "c1" }
    ∷ record { turn_id = codes "t2"; client_turn_id = codes "c2" }
    ∷ []

abbrev link : Option Text → Text → ArtifactLinkKey
link id client = record { turn_id = id; client_turn_id = client; artifact_id = none }

abbrev by_id : ArtifactLinkKey
by_id = link (some (codes "t1")) (codes "c9")

abbrev by_client : ArtifactLinkKey
by_client = link none (codes "c2")

abbrev late : ArtifactLinkKey
late = link none (codes "c1")

-- The last one names the first turn by the client's id and still is unlinked, since another
-- artifact names that turn by its own id.
late_is_unlinked :
    (associate_artifacts_to_turns turns (by_id ∷ by_client ∷ late ∷ [])).unlinked ≡ late ∷ []
unfolding associate_artifacts_to_turns codes text_eq
late_is_unlinked = refl

associate_artifacts_to_turns-IsAssociated_example :
    IsAssociated turns
      (by_id ∷ by_client ∷ late ∷ [])
      (associate_artifacts_to_turns turns (by_id ∷ by_client ∷ late ∷ []))
associate_artifacts_to_turns-IsAssociated_example =
    associate_artifacts_to_turns-IsAssociated turns (by_id ∷ by_client ∷ late ∷ [])
