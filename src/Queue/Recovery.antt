-- ===== src/Queue/Recovery.antt =====
-- What the maintenance operations do to the records of the queue.
use newell_ai.Common.{
  ℕ, ◌+◌, ◌≡◌, refl, ap, arith, List, [], ◌∷◌, map, filter, length, if◌then◌else◌,
}
use newell_ai.Common.Keys.{text_order}
use newell_ai.Idb.Ordered.{IsOrdered, put_all-in_place, map-in_place-IsOrdered}
use newell_ai.Queue.Types.{QueueState, pending, in_flight, auth_blocked, QueueEnvelope}
use newell_ai.Queue.Db.{QueueDb, queue_key}
use newell_ai.Queue.Operations.{
  has_state, rewrite_state, to_pending, to_pending_now, to_auth_blocked, to_due, recover_in_flight,
  requeue_auth_blocked, hold_pending_as_auth_blocked, force_pending_due,
}

-- How many records are in a state.
abbrev pub count_state : QueueState → List QueueEnvelope → ℕ
count_state s q = length (filter (has_state s) q)

-- The effect of one operation on a single record.
abbrev pub rewritten : QueueState → (QueueEnvelope → QueueEnvelope) → QueueEnvelope → QueueEnvelope
rewritten s change e = if has_state s e then change e else e

abbrev pub IsQueueOrdered : List QueueEnvelope → Type 0
IsQueueOrdered = IsOrdered queue_key

rewrite_state-queue :
    (s : QueueState) (change : QueueEnvelope → QueueEnvelope) (db : QueueDb)
    → ((e : QueueEnvelope) → (change e).queue_id ≡ e.queue_id)
    → IsQueueOrdered db.queue
    → rewrite_state s change db
      ≡ (count_state s db.queue, record db { queue = map (rewritten s change) db.queue })
unfolding rewrite_state
rewrite_state-queue s change db same h =
    ap (λ (q : List QueueEnvelope). (count_state s db.queue, record db { queue = q }))
      (put_all-in_place queue_key (has_state s) change same db.queue h)

module _ (db : QueueDb) (h : IsQueueOrdered db.queue) where
  pub recover_in_flight_lem : recover_in_flight db ≡ (
    count_state in_flight db.queue,
    record db { queue = map (rewritten in_flight to_pending) db.queue },
  )
  unfolding recover_in_flight
  recover_in_flight_lem = rewrite_state-queue in_flight to_pending db (λ e. refl) h

  pub requeue_auth_blocked_lem : requeue_auth_blocked db ≡ (
    count_state auth_blocked db.queue,
    record db { queue = map (rewritten auth_blocked to_pending_now) db.queue },
  )
  unfolding requeue_auth_blocked
  requeue_auth_blocked_lem = rewrite_state-queue auth_blocked to_pending_now db (λ e. refl) h

  pub hold_pending_lem : hold_pending_as_auth_blocked db ≡ (
    count_state pending db.queue,
    record db { queue = map (rewritten pending to_auth_blocked) db.queue },
  )
  unfolding hold_pending_as_auth_blocked
  hold_pending_lem = rewrite_state-queue pending to_auth_blocked db (λ e. refl) h

  pub force_pending_due_lem : force_pending_due db ≡ (
    count_state pending db.queue,
    record db { queue = map (rewritten pending to_due) db.queue },
  )
  unfolding force_pending_due
  force_pending_due_lem = rewrite_state-queue pending to_due db (λ e. refl) h

recovered_counts :
    (q : List QueueEnvelope)
    → let r = map (rewritten in_flight to_pending) q in
      (count_state in_flight r ≡ 0)
      × (count_state pending r ≡ count_state pending q + count_state in_flight q)
      × (count_state auth_blocked r ≡ count_state auth_blocked q)
unfolding filter
recovered_counts [] = ground arith
recovered_counts (e ∷ q) = ground (arith, recovered_counts q)

-- On startup every abandoned in-flight record becomes pending: the returned number is the number
-- of those records, none is left in flight, no record is lost, and the auth-blocked ones, the dead
-- letters, the identities and the counters stay as they are.
pub recover_in_flight_counts :
    (db : QueueDb)
    → IsQueueOrdered db.queue
    → let (n, after) = recover_in_flight db in
      (n ≡ count_state in_flight db.queue)
      × (count_state in_flight after.queue ≡ 0)
      × (count_state pending after.queue ≡ count_state pending db.queue + n)
      × (count_state auth_blocked after.queue ≡ count_state auth_blocked db.queue)
      × (after.dead ≡ db.dead)
      × (after.identities ≡ db.identities)
      × (after.sequences ≡ db.sequences)
recover_in_flight_counts db h =
    rw (recover_in_flight_lem db h)
      (let (a, b, c) = recovered_counts db.queue in (refl, a, b, c, refl, refl, refl))

-- What a hold and a later release leave of a record: all but the state and the due time.
abbrev pub released : QueueEnvelope → QueueEnvelope
released e = if has_state in_flight e then e else to_pending_now e

released_lem :
    (q : List QueueEnvelope)
    → map (rewritten auth_blocked to_pending_now) (map (rewritten pending to_auth_blocked) q)
      ≡ map released q
released_lem [] = refl
released_lem (e ∷ q) = ground (arith, released_lem q)

-- Holding the queue for a bad token and releasing it once the token is fixed makes every held or
-- blocked record pending and due, with its attempts, payload and identity unchanged; the records
-- in flight are not touched.
pub requeue-hold :
    (db : QueueDb)
    → IsQueueOrdered db.queue
    → (requeue_auth_blocked (hold_pending_as_auth_blocked db).1).1
      ≡ record db { queue = map released db.queue }
requeue-hold db h = rw (hold_pending_lem db h) (
    let held = map (rewritten pending to_auth_blocked) db.queue in
    let kept =
      map-in_place-IsOrdered queue_key (has_state pending) to_auth_blocked (λ e. refl) db.queue h in
    rw (requeue_auth_blocked_lem (record db { queue = held }) kept)
      (ap (λ (q : List QueueEnvelope). record db { queue = q }) (released_lem db.queue)))
