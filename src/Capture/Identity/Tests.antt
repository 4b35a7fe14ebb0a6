-- ===== src/Capture/Identity/Tests.antt =====
-- Keys of small scans, and the theorem at a concrete input.
use newell_ai.Common.Keys.Instances.{text_cmp}
use newell_ai.Idb.{get, put}
use newell_ai.Common.{
  ◌≤◌, Text, codes, text_eq, trim, none, some, List, [], ◌∷◌, ◌++◌, take, map, length, ◌≡◌, refl,
  All,
}
use newell_ai.Contracts.{user, assistant}
use newell_ai.Queue.Enqueue.{max_source_key_length}
use newell_ai.Capture.Identity.{
  TurnForIdentity, TurnWithSourceKey, ObserveCandidate, assign_source_keys, coalesce_candidates,
}
use newell_ai.Capture.Identity.Laws.{assign_source_keys_prefix}

abbrev hex : Text → Text
hex s = codes "00"

abbrev scan : List TurnForIdentity
scan =
    record { speaker = user; text = codes "hi"; source_provided_id = none }
    ∷ record { speaker = assistant; text = codes "yo"; source_provided_id = some (codes " m1 ") }
    ∷ record { speaker = user; text = codes "hi"; source_provided_id = some (codes " ") }
    ∷ []

keys_of_scan :
    map (λ (k : TurnWithSourceKey). k.source_key) (assign_source_keys hex (codes "c") scan)
    ≡ codes "c|user|hi|0" ∷ codes "m1" ∷ codes "c|user|hi|1" ∷ []
unfolding assign_source_keys codes get trim put text_cmp
keys_of_scan = refl

abbrev candidate : Text → ObserveCandidate
candidate id = record { speaker = user; text = codes "hi"; source_provided_id = some id }

first_wins :
    coalesce_candidates (candidate (codes " a") ∷ candidate (codes "a ") ∷ [])
    ≡ candidate (codes "a") ∷ []
unfolding coalesce_candidates trim codes text_eq
first_wins = refl

assign_source_keys_prefix_example :
    (take 3 (assign_source_keys hex (codes "c") (scan ++ scan))
      ≡ assign_source_keys hex (codes "c") scan)
    × All
        (λ (k : TurnWithSourceKey).
          (1 ≤ length k.source_key) × (length k.source_key ≤ max_source_key_length))
        (assign_source_keys hex (codes "c") scan)
assign_source_keys_prefix_example = assign_source_keys_prefix hex (codes "c") scan scan
