-- ===== src/Artifacts/Recovery.antt =====
-- What the maintenance operations do to the records of the artifact queue.
use newell_ai.Common.{
  ℕ, ◌+◌, Bool, ◌||◌, ◌≡◌, refl, ap, arith, List, [], ◌∷◌, map, filter, length, if◌then◌else◌,
}
use newell_ai.Common.Keys.{text_order}
use newell_ai.Idb.Ordered.{put_all-in_place, map-in_place-IsOrdered}
use newell_ai.Artifacts.Types.{ArtifactQueueEnvelope, ArtifactDb, artifact_key}
use newell_ai.Artifacts.Queue.{
  is_pending, is_in_flight, is_auth_blocked, pend, pend_at, block, rewrite_where,
  recover_artifact_in_flight, requeue_artifact_auth_blocked,
}
use newell_ai.Artifacts.Sync.Select.{hold_artifact_auth_blocked}
use newell_ai.Artifacts.Sync.Again.{IsArtifactOrdered}

abbrev pub is_busy : ArtifactQueueEnvelope → Bool
is_busy e = is_pending e || is_in_flight e

abbrev pub count_where : (ArtifactQueueEnvelope → Bool) → List ArtifactQueueEnvelope → ℕ
count_where p q = length (filter p q)

abbrev pub rewritten :
    (ArtifactQueueEnvelope → Bool)
    → (ArtifactQueueEnvelope → ArtifactQueueEnvelope)
    → ArtifactQueueEnvelope
    → ArtifactQueueEnvelope
rewritten p change e = if p e then change e else e

rewrite_where-queue :
    (p : ArtifactQueueEnvelope → Bool) (change : ArtifactQueueEnvelope → ArtifactQueueEnvelope)
    (db : ArtifactDb)
    → ((e : ArtifactQueueEnvelope) → (change e).queue_id ≡ e.queue_id)
    → IsArtifactOrdered db.queue
    → rewrite_where p change db
      ≡ (count_where p db.queue, record db { queue = map (rewritten p change) db.queue })
unfolding rewrite_where
rewrite_where-queue p change db same h =
    ap (λ (q : List ArtifactQueueEnvelope). (count_where p db.queue, record db { queue = q }))
      (put_all-in_place artifact_key p change same db.queue h)

recovered_counts :
    (q : List ArtifactQueueEnvelope)
    → let r = map (rewritten is_in_flight pend) q in
      (count_where is_in_flight r ≡ 0)
      × (count_where is_pending r ≡ count_where is_pending q + count_where is_in_flight q)
      × (count_where is_auth_blocked r ≡ count_where is_auth_blocked q)
unfolding filter
recovered_counts [] = ground arith
recovered_counts (e ∷ q) = ground (arith, recovered_counts q)

-- On startup every abandoned transfer becomes pending: the returned number is the number of those
-- records, none is left in flight, the auth-blocked ones stay, and so do the dead letters, the
-- conflict notices and the identities.
pub recover_artifact_in_flight_counts :
    (db : ArtifactDb)
    → IsArtifactOrdered db.queue
    → let (n, after) = recover_artifact_in_flight db in
      (n ≡ count_where is_in_flight db.queue)
      × (count_where is_in_flight after.queue ≡ 0)
      × (count_where is_pending after.queue ≡ count_where is_pending db.queue + n)
      × (count_where is_auth_blocked after.queue ≡ count_where is_auth_blocked db.queue)
      × (after.dead ≡ db.dead)
      × (after.conflicts ≡ db.conflicts)
      × (after.identities ≡ db.identities)
unfolding recover_artifact_in_flight
recover_artifact_in_flight_counts db h =
    rw (rewrite_where-queue is_in_flight pend db (λ e. refl) h)
      (let (a, b, c) = recovered_counts db.queue in (refl, a, b, c, refl, refl, refl))

hold_artifact_auth_blocked_lem :
    (db : ArtifactDb)
    → IsArtifactOrdered db.queue
    → hold_artifact_auth_blocked db
      ≡ (count_where is_busy db.queue, record db { queue = map (rewritten is_busy block) db.queue })
unfolding hold_artifact_auth_blocked
hold_artifact_auth_blocked_lem db h = rewrite_where-queue is_busy block db (λ e. refl) h

requeue_artifact_auth_blocked_lem :
    (now : ℕ) (db : ArtifactDb)
    → IsArtifactOrdered db.queue
    → requeue_artifact_auth_blocked now db ≡ (
      count_where is_auth_blocked db.queue,
      record db { queue = map (rewritten is_auth_blocked (pend_at now)) db.queue },
    )
unfolding requeue_artifact_auth_blocked
requeue_artifact_auth_blocked_lem now db h =
    rewrite_where-queue is_auth_blocked (pend_at now) db (λ e. refl) h

released_lem :
    (now : ℕ) (q : List ArtifactQueueEnvelope)
    → map (rewritten is_auth_blocked (pend_at now)) (map (rewritten is_busy block) q)
      ≡ map (pend_at now) q
released_lem now [] = refl
released_lem now (e ∷ q) = ground (arith, released_lem now q)

-- Holding the artifact queue for a bad token and releasing it once the token is fixed makes every
-- record pending and due at the time of the release, those of a transfer under way included, with
-- attempts, bytes and server id unchanged; no record is lost.
pub requeue-hold_artifacts :
    (db : ArtifactDb) (now : ℕ)
    → IsArtifactOrdered db.queue
    → (requeue_artifact_auth_blocked now (hold_artifact_auth_blocked db).1).1
      ≡ record db { queue = map (pend_at now) db.queue }
requeue-hold_artifacts db now h = rw (hold_artifact_auth_blocked_lem db h) (
    let held = map (rewritten is_busy block) db.queue in
    let kept = map-in_place-IsOrdered artifact_key is_busy block (λ e. refl) db.queue h in
    rw (requeue_artifact_auth_blocked_lem now (record db { queue = held }) kept) (
      ap (λ (q : List ArtifactQueueEnvelope). record db { queue = q }) (released_lem now db.queue)))
