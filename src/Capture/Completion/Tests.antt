-- ===== src/Capture/Completion/Tests.antt =====
-- Scans of a turn, and the theorem at a concrete input.
use newell_ai.Common.{codes, text_eq, true, false, Bool, Text, ℕ, List, [], ◌∷◌, ◌≡◌, refl}
use newell_ai.Capture.Completion.{Sight, scans}
use newell_ai.Capture.Completion.Laws.{IsSettled, scans-IsSettled}

abbrev sight : Text → Bool → ℕ → Sight
sight text stop now = record {
  normalized = text;
  flags = record { has_stop_affordance = stop; has_streaming_marker = false };
  now = now;
  has_image = false;
}

abbrev before : List Sight
before =
    sight (codes "hi") false 20
    ∷ sight (codes "hi") false 10
    ∷ sight (codes "h") false 5
    ∷ sight (codes "h") true 0
    ∷ []

stable_is_complete : (scans 15 (sight (codes "hi") false 25 ∷ before)).0 ≡ true
unfolding scans codes text_eq
stable_is_complete = refl

early_is_not : (scans 15 before).0 ≡ false
unfolding scans codes text_eq
early_is_not = refl

stop_is_not : (scans 15 (sight (codes "hi") true 60 ∷ before)).0 ≡ false
unfolding scans
stop_is_not = refl

scans-IsSettled_example : IsSettled 15 (sight (codes "hi") false 25) before
scans-IsSettled_example = scans-IsSettled 15 (sight (codes "hi") false 25) before stable_is_complete
