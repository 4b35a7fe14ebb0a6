-- ===== src/Capture/Delivery/Tests.antt =====
-- Images of a session, and the theorem at a concrete input.
use newell_ai.Common.Keys.Instances.{text_cmp}
use newell_ai.Common.{
  codes, text_eq, some, none, true, List, [], ◌∷◌, ◌≡◌, refl, count_if, leb, ◌||◌,
}
use newell_ai.Capture.Delivery.{
  deliver_artifact, SendResult, acknowledged, failed_with, should_skip_artifact, no_deliveries,
}
use newell_ai.Capture.Delivery.Laws.{
  Delivered, deliver_all, is_sent, is_refused, should_skip_artifact-deliver_all,
}

abbrev image : SendResult → Delivered
image r = record { key = some (codes "f"); result = r }

-- A refusal that comes late, behind the acknowledgement.
abbrev ends : List Delivered
ends =
    image (failed_with (some (codes "turn_identity_unknown")))
    ∷ image acknowledged
    ∷ image (failed_with none)
    ∷ []

skips_after_success :
    should_skip_artifact (some (codes "f")) (deliver_all ends no_deliveries) ≡ true
unfolding deliver_all text_eq codes text_cmp should_skip_artifact deliver_artifact
skips_after_success = refl

should_skip_artifact-deliver_all_example :
    should_skip_artifact (some (codes "f")) (deliver_all ends no_deliveries) ≡ (
      leb 1 (count_if (is_sent (codes "f")) ends) || leb 2 (count_if (is_refused (codes "f")) ends))
should_skip_artifact-deliver_all_example = should_skip_artifact-deliver_all (codes "f") ends
