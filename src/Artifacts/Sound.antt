-- ===== src/Artifacts/Sound.antt =====
-- What every handler of the artifact queue keeps.
pub mod Respond
pub mod Sync
use newell_ai.Common.{
  ℕ, suc, ◌+◌, ◌<◌, Text, trim, Option, none, some, Bool, true, false, not, ◌&&◌, ◌||◌, List, [],
  ◌∷◌, map, filter, ◌≡◌, refl, arith, All, All-filter, All-map, Option-cases, Bool-cases, inl, inr,
  leb,
}
use newell_ai.Common.Keys.{text_order, pair_order}
use newell_ai.Idb.{get}
use newell_ai.Idb.Members.{is_some, put-All, delete-All, put_all-All, get-All}
use newell_ai.Artifacts.Types.{
  ArtifactQueueEnvelope, ArtifactDeadLetter, ArtifactDb, ArtifactByteStatus, ready, uploaded,
  metadata_discovered, pending_download, failed_download, artifact_max_attempts, artifact_key,
  artifact_dead_key, ArtifactEnqueueInput, ArtifactEnqueueResult, conflict_key,
  artifact_identity_key,
}
use newell_ai.Artifacts.Queue.{
  enqueue_artifact, register_artifact, new_artifact, attach_artifact_bytes, find, rewrite_where,
  recover_artifact_in_flight, force_artifact_pending_due, requeue_artifact_auth_blocked,
  set_artifact_status, StatusPatch, dismiss_artifact_conflict, clear_artifact_dead_letters,
  delete_letters, awaits_bytes,
}

abbrev pub is_ready : ArtifactByteStatus → Bool
is_ready metadata_discovered = false
is_ready pending_download = false
is_ready ready = true
is_ready uploaded = false
is_ready failed_download = false

-- Bytes are promised that are not there.
abbrev pub misses_bytes : ArtifactQueueEnvelope → Bool
misses_bytes e = is_ready e.byte_status && not (is_some e.bytes)

-- A record that may wait in the queue: the attempts are not used up, and bytes that are promised
-- are there.
abbrev pub IsTransferable : ArtifactQueueEnvelope → Type 0
IsTransferable e = (e.attempts < artifact_max_attempts) × (misses_bytes e ≡ false)

abbrev pub IsEmptied : ArtifactDeadLetter → Type 0
IsEmptied d = d.envelope.bytes ≡ none

pub record IsSound (db : ArtifactDb) : Type 0 where
  pub waiting : All IsTransferable db.queue
  pub emptied : All IsEmptied db.dead

pub rewrite_where-IsSound :
    (p : ArtifactQueueEnvelope → Bool) (f : ArtifactQueueEnvelope → ArtifactQueueEnvelope)
    (db : ArtifactDb)
    → ((e : ArtifactQueueEnvelope) → IsTransferable e → IsTransferable (f e))
    → IsSound db
    → IsSound (rewrite_where p f db).1
unfolding rewrite_where
rewrite_where-IsSound p f db keep h = record {
  waiting =
      put_all-All artifact_key IsTransferable _ db.queue
        (All-map IsTransferable f _ keep (All-filter IsTransferable p db.queue h.waiting))
        h.waiting;
  emptied = h.emptied;
}

new_artifact-IsTransferable :
    (input : ArtifactEnqueueInput) (id queue_uuid : Text) (now : ℕ)
    → IsTransferable (new_artifact input id queue_uuid now)
unfolding new_artifact
new_artifact-IsTransferable input id queue_uuid now = elim (input.bytes) [
  | none ↦ elim (input.declared_sha256) [ none ↦ ground arith | some s ↦ ground arith ]
  | some bs ↦ elim bs [
    | [] ↦ elim (input.declared_sha256) [ none ↦ ground arith | some s ↦ ground arith ]
    | b ∷ rest ↦ ground arith
  ]
]

register_artifact-IsSound :
    (db : ArtifactDb) (input : ArtifactEnqueueInput) (k queue_uuid : Text) (now : ℕ)
    → IsSound db
    → IsSound (register_artifact db input k queue_uuid now).1
unfolding register_artifact
register_artifact-IsSound db input k queue_uuid now h =
    elim (Option-cases (get artifact_identity_key (input.conversation_id, k) db.identities)) [
      | inl new ↦
          rw (new, register_artifact)
            (record {
              waiting =
                  put-All artifact_key IsTransferable (new_artifact input k queue_uuid now) db.queue
                    (new_artifact-IsTransferable input k queue_uuid now) h.waiting;
              emptied = h.emptied;
            })
      | inr (r, known) ↦ rw (known, register_artifact) h
    ]

pub enqueue_artifact-IsSound :
    (db : ArtifactDb) (input : ArtifactEnqueueInput) (queue_uuid : Text) (now : ℕ)
    (r : ArtifactEnqueueResult × ArtifactDb)
    → enqueue_artifact db input queue_uuid now ≡ some r
    → IsSound db
    → IsSound r.1
unfolding enqueue_artifact
enqueue_artifact-IsSound db input queue_uuid now r e h = from_key (trim input.source_key) e
  where
    from_key :
        (k : Text)
        → elim k [ [] ↦ none | c ∷ s ↦ some (register_artifact db input (c ∷ s) queue_uuid now) ]
          ≡ some r
        → IsSound r.1
    from_key [] e = cc
    from_key (c ∷ s) e =
        let same : register_artifact db input (c ∷ s) queue_uuid now ≡ r = cc in
        rw (← same) (register_artifact-IsSound db input (c ∷ s) queue_uuid now h)

find-All :
    (P : ArtifactQueueEnvelope → Type 0) (p : ArtifactQueueEnvelope → Bool)
    (q : List ArtifactQueueEnvelope) (e : ArtifactQueueEnvelope)
    → All P q
    → find p q ≡ some e
    → P e
unfolding find
find-All P p [] e h found = cc
find-All P p (x ∷ q) e (hx, hs) found = ground (arith, find-All P p q e hs)

pub attach_artifact_bytes-IsSound :
    (db : ArtifactDb) (conversation_id client_artifact_id : Text) (bytes : List ℕ) (sha : Text)
    (size now : ℕ)
    → IsSound db
    → IsSound (attach_artifact_bytes db conversation_id client_artifact_id bytes sha size now).1
unfolding attach_artifact_bytes
attach_artifact_bytes-IsSound db conversation_id client_artifact_id bytes sha size now h =
    let p = awaits_bytes conversation_id client_artifact_id in
    elim (Option-cases (find p db.queue)) [
      | inl absent ↦ rw (absent, attach_artifact_bytes) h
      | inr (e, found) ↦
          let here = find-All IsTransferable p db.queue e h.waiting found in
          rw (found, attach_artifact_bytes)
            (record {
              waiting = put-All artifact_key IsTransferable _ db.queue (here.0, refl) h.waiting;
              emptied = h.emptied;
            })
    ]

delete_letters-All :
    (P : ArtifactDeadLetter → Type 0) (all s : List ArtifactDeadLetter)
    → All P s
    → All P (delete_letters all s)
unfolding delete_letters
delete_letters-All P [] s h = h
delete_letters-All P (d ∷ all) s h =
    delete_letters-All P all _ (delete-All artifact_dead_key P _ s h)

module _ (db : ArtifactDb) (h : IsSound db) where
  pub recover_artifact_in_flight-IsSound : IsSound (recover_artifact_in_flight db).1
  unfolding recover_artifact_in_flight
  recover_artifact_in_flight-IsSound = rewrite_where-IsSound _ _ db (λ e p. p) h

  pub force_artifact_pending_due-IsSound : (now : ℕ) → IsSound (force_artifact_pending_due now db)
  unfolding force_artifact_pending_due
  force_artifact_pending_due-IsSound now = rewrite_where-IsSound _ _ db (λ e p. p) h

  pub requeue_artifact_auth_blocked-IsSound :
      (now : ℕ) → IsSound (requeue_artifact_auth_blocked now db).1
  unfolding requeue_artifact_auth_blocked
  requeue_artifact_auth_blocked-IsSound now = rewrite_where-IsSound _ _ db (λ e p. p) h

  pub set_artifact_status-IsSound : (patch : StatusPatch) → IsSound (set_artifact_status patch db)
  unfolding set_artifact_status
  set_artifact_status-IsSound patch = record { waiting = h.waiting; emptied = h.emptied }

  pub dismiss_artifact_conflict-IsSound : (id : Text) → IsSound (dismiss_artifact_conflict db id).1
  unfolding dismiss_artifact_conflict
  dismiss_artifact_conflict-IsSound id = elim (Option-cases (get conflict_key id db.conflicts)) [
    | inl absent ↦ rw (absent, dismiss_artifact_conflict) h
    | inr (c, found) ↦
        rw (found, dismiss_artifact_conflict) (record { waiting = h.waiting; emptied = h.emptied })
  ]

  pub clear_artifact_dead_letters-IsSound : IsSound (clear_artifact_dead_letters db).1
  unfolding clear_artifact_dead_letters
  clear_artifact_dead_letters-IsSound = record {
    waiting = h.waiting;
    emptied = delete_letters-All IsEmptied db.dead db.dead h.emptied;
  }
