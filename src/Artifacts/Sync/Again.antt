-- ===== src/Artifacts/Sync/Again.antt =====
-- What `selectDueArtifact` does when it runs again.
use newell_ai.Common.{
  ℕ, Option, none, some, true, false, ◌≡◌, refl, ap, ◌∙◌, arith, List, [], ◌∷◌, map, filter,
  filter-All_true,
}
use newell_ai.Common.Keys.{text_order}
use newell_ai.Common.Sorting.{sort-All}
use newell_ai.Idb.{put, get, put_all}
use newell_ai.Idb.Ordered.{IsOrdered, put-IsOrdered, put_all-in_place, map-in_place-IsOrdered}
use newell_ai.Idb.Same.{get_self, put_same, map-put}
use newell_ai.Artifacts.Types.{
  ArtifactQueueState, ArtifactQueueEnvelope, pending, in_flight, auth_blocked, artifact_key,
}
use newell_ai.Artifacts.Queue.{is_pending, is_in_flight, pend}
use newell_ai.Artifacts.Sync.Select.{
  revert_artifact, is_artifact_due, age_order, first_due, start_transfer, select_due_artifact,
}
use newell_ai.Artifacts.Sound.Sync.{first_due-All, first_of-All}

abbrev pub IsArtifactOrdered : List ArtifactQueueEnvelope → Type 0
IsArtifactOrdered = IsOrdered artifact_key

state_is_pending :
    (s : ArtifactQueueState)
    → elim s [ pending ↦ true | in_flight ↦ false | auth_blocked ↦ false ] ≡ true
    → pending ≡ s
state_is_pending pending h = refl
state_is_pending in_flight h = cc
state_is_pending auth_blocked h = cc

pend_same : (e : ArtifactQueueEnvelope) → is_pending e ≡ true → pend e ≡ e
pend_same e h = ap (λ s. record e { state = s }) (state_is_pending e.state h)

revert_artifact_again :
    (e : ArtifactQueueEnvelope) → revert_artifact (revert_artifact e) ≡ revert_artifact e
revert_artifact_again e = ground arith

map-revert_artifact_again :
    (q : List ArtifactQueueEnvelope)
    → map revert_artifact (map revert_artifact q) ≡ map revert_artifact q
map-revert_artifact_again [] = refl
map-revert_artifact_again (e ∷ q) = rw (revert_artifact_again e, map-revert_artifact_again q) refl

revert_all :
    (q : List ArtifactQueueEnvelope)
    → IsArtifactOrdered q
    → put_all artifact_key (map pend (filter is_in_flight q)) q ≡ map revert_artifact q
revert_all q h = put_all-in_place artifact_key is_in_flight pend (λ e. refl) q h

pub revert_all-IsArtifactOrdered :
    (q : List ArtifactQueueEnvelope)
    → IsArtifactOrdered q
    → IsArtifactOrdered (map revert_artifact q)
revert_all-IsArtifactOrdered q h =
    map-in_place-IsOrdered artifact_key is_in_flight pend (λ e. refl) q h

-- The chosen record stands in the store as it is.
pub first_due_lem :
    (now : ℕ) (q : List ArtifactQueueEnvelope) (e : ArtifactQueueEnvelope)
    → IsArtifactOrdered q
    → first_due now q ≡ some e
    → get artifact_key e.queue_id q ≡ some e
first_due_lem now q e h found =
    first_due-All (λ x. get artifact_key x.queue_id q ≡ some x) now q e (get_self artifact_key q h)
      found

pub first_due-is_artifact_due :
    (now : ℕ) (q : List ArtifactQueueEnvelope) (e : ArtifactQueueEnvelope)
    → first_due now q ≡ some e
    → is_artifact_due now e ≡ true
unfolding first_due
first_due-is_artifact_due now q e found =
    first_of-All (λ x. is_artifact_due now x ≡ true) _ e
      (sort-All age_order (λ x. is_artifact_due now x ≡ true) _
        (filter-All_true (is_artifact_due now) q))
      found

-- The result of the selection, given the record that it finds among the reverted ones.
abbrev pub selection :
    Option ArtifactQueueEnvelope
    → List ArtifactQueueEnvelope
    → Option ArtifactQueueEnvelope × List ArtifactQueueEnvelope
selection none q = (none, q)
selection (some e) q = (some (start_transfer e), put artifact_key (start_transfer e) q)

pub select_due_artifact_lem :
    (now : ℕ) (q : List ArtifactQueueEnvelope)
    → IsArtifactOrdered q
    → select_due_artifact now q
      ≡ selection (first_due now (map revert_artifact q)) (map revert_artifact q)
unfolding select_due_artifact
select_due_artifact_lem now q h = from (first_due now (map revert_artifact q))
  where
    from :
        (o : Option ArtifactQueueEnvelope)
        → elim o [
          | none ↦ (none, put_all artifact_key (map pend (filter is_in_flight q)) q)
          | some e ↦ (
            some (start_transfer e),
            put artifact_key
                (start_transfer e)
                (put_all artifact_key (map pend (filter is_in_flight q)) q),
          )
        ]
          ≡ selection o (map revert_artifact q)
    from none = rw (revert_all q h) refl
    from (some e) = rw (revert_all q h) refl

-- The store behind the selection, with every transfer reverted.
selected-reverted :
    (now : ℕ) (q : List ArtifactQueueEnvelope) (o : Option ArtifactQueueEnvelope)
    → IsArtifactOrdered q
    → first_due now (map revert_artifact q) ≡ o
    → map revert_artifact (selection o (map revert_artifact q)).1 ≡ map revert_artifact q
selected-reverted now q none h found = map-revert_artifact_again q
selected-reverted now q (some e) h found =
    let all = map revert_artifact q in
    let ordered = revert_all-IsArtifactOrdered q h in
    let due = first_due-is_artifact_due now all e found in
    let idle : is_pending e ≡ true = ground arith in
    map-put artifact_key revert_artifact (start_transfer e) all (λ x. ground arith)
    ∙ rw (map-revert_artifact_again q, pend_same e idle)
        (put_same artifact_key e all (first_due_lem now all e ordered found) ordered)

selection-IsArtifactOrdered :
    (o : Option ArtifactQueueEnvelope) (q : List ArtifactQueueEnvelope)
    → IsArtifactOrdered q
    → IsArtifactOrdered (selection o q).1
selection-IsArtifactOrdered none q h = h
selection-IsArtifactOrdered (some e) q h = put-IsOrdered artifact_key (start_transfer e) q h

-- Choosing again at the same time, as after a crash during the transfer, chooses the same record
-- and changes nothing.
pub select_due_artifact_again :
    (now : ℕ) (q : List ArtifactQueueEnvelope)
    → IsArtifactOrdered q
    → select_due_artifact now (select_due_artifact now q).1 ≡ select_due_artifact now q
select_due_artifact_again now q h =
    let o = first_due now (map revert_artifact q) in
    let back = selected-reverted now q o h refl in
    rw (select_due_artifact_lem now q h) (
      select_due_artifact_lem now (selection o (map revert_artifact q)).1
        (selection-IsArtifactOrdered o (map revert_artifact q) (revert_all-IsArtifactOrdered q h))
      ∙ rw back refl)
