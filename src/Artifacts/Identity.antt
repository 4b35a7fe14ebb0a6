-- ===== src/Artifacts/Identity.antt =====
-- The registry of artifact keys.
use newell_ai.Common.{
  ℕ, Text, trim, some, ◌≡◌, ◌≢◌, refl, sym, ◌∙◌, arith, [], ◌∷◌, ap, ◌⊎◌, Option-cases, inl, inr,
}
use newell_ai.Common.Keys.{text_order, pair_order, cmp_refl}
use newell_ai.Idb.{get}
use newell_ai.Idb.Laws.{get-put}
use newell_ai.Artifacts.Types.{
  ArtifactDb, ArtifactEnqueueInput, ArtifactEnqueueResult, accepted, already_known,
  artifact_identity_key, ArtifactIdentityRecord,
}
use newell_ai.Artifacts.Queue.{enqueue_artifact, register_artifact}

abbrev pub artifact_id_of : ArtifactEnqueueResult → Text
artifact_id_of (accepted id) = id
artifact_id_of (already_known id) = id

register_artifact-known :
    (db : ArtifactDb) (input : ArtifactEnqueueInput) (k queue_uuid : Text) (now : ℕ)
    (r : ArtifactIdentityRecord)
    → get artifact_identity_key (input.conversation_id, k) db.identities ≡ some r
    → register_artifact db input k queue_uuid now ≡ (already_known r.client_artifact_id, db)
unfolding register_artifact
register_artifact-known db input k queue_uuid now r h = ground arith

-- The registry holds the id that the call returns.
register_artifact-identity :
    (db : ArtifactDb) (input : ArtifactEnqueueInput) (k queue_uuid : Text) (now : ℕ)
    → let (result, db') = register_artifact db input k queue_uuid now in
      (r : ArtifactIdentityRecord) × (get artifact_identity_key
          (input.conversation_id, k)
          db'.identities
        ≡ some r)
      × (r.client_artifact_id ≡ artifact_id_of result)
unfolding register_artifact
register_artifact-identity db input k queue_uuid now =
    elim (Option-cases (get artifact_identity_key (input.conversation_id, k) db.identities)) [
      | inl new ↦
          let r : ArtifactIdentityRecord = record {
            conversation_id = input.conversation_id;
            source_key = k;
            client_artifact_id = k;
          } in
          rw (new, register_artifact)
            (
              r,
              get-put artifact_identity_key (input.conversation_id, k) r db.identities
                  ∙ rw (cmp_refl ⦃o = pair_order⦄ (input.conversation_id, k)) refl,
              refl,
            )
      | inr (r, known) ↦ rw (known, register_artifact) (r, known, refl)
    ]

enqueue_artifact-register :
    (db : ArtifactDb) (input : ArtifactEnqueueInput) (queue_uuid : Text) (now : ℕ)
    → trim input.source_key ≢ []
    → enqueue_artifact db input queue_uuid now
      ≡ some (register_artifact db input (trim input.source_key) queue_uuid now)
unfolding enqueue_artifact
enqueue_artifact-register db input queue_uuid now h = ground (arith, h)

enqueue_artifact-empty :
    (db : ArtifactDb) (input : ArtifactEnqueueInput) (queue_uuid : Text) (now : ℕ)
    (r : ArtifactEnqueueResult × ArtifactDb)
    → trim input.source_key ≡ []
    → enqueue_artifact db input queue_uuid now ≡ some r
    → ⊥
unfolding enqueue_artifact
enqueue_artifact-empty db input queue_uuid now r empty h = ground arith

text-cases : (s : Text) → (s ≡ []) ⊎ (s ≢ [])
text-cases [] = inl refl
text-cases (c ∷ s) = inr (λ e. cc)

some_injective : {A : Type 0} {a b : A} → some a ≡ some b → a ≡ b
some_injective h = cc

-- A second `enqueueArtifact` of the same key, up to space around it, in the conversation returns
-- the client id of the first and changes nothing, whatever else it brings: no bytes are replaced
-- and nothing is queued again.
pub enqueue_artifact_again :
    (db : ArtifactDb) (input again : ArtifactEnqueueInput) (queue_uuid queue_uuid' : Text)
    (now now' : ℕ) (r : ArtifactEnqueueResult × ArtifactDb)
    → enqueue_artifact db input queue_uuid now ≡ some r
    → trim again.source_key ≡ trim input.source_key
    → again.conversation_id ≡ input.conversation_id
    → enqueue_artifact r.1 again queue_uuid' now' ≡ some (already_known (artifact_id_of r.0), r.1)
enqueue_artifact_again db input again queue_uuid queue_uuid' now now' r first same_key same_c =
    elim (text-cases (trim input.source_key)) [
      | inl empty ↦ elim (enqueue_artifact-empty db input queue_uuid now r empty first) [ ]
      | inr filled ↦
          let k = trim input.source_key in
          let same : register_artifact db input k queue_uuid now ≡ r =
            some_injective
              (sym (enqueue_artifact-register db input queue_uuid now filled) ∙ first) in
          let (i, found, id) = register_artifact-identity db input k queue_uuid now in
          enqueue_artifact-register r.1 again queue_uuid' now' (rw same_key filled)
          ∙ rw (same_key, ← same, ← id)
              (ap some (register_artifact-known _ again k queue_uuid' now' i (rw same_c found)))
    ]
