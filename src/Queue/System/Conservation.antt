-- ===== src/Queue/System/Conservation.antt =====
-- No accepted turn is lost.
use newell_ai.Common.{
  ℕ, Text, text_eq, text_eq_iff, Option, Bool, true, false, ◌&&◌, ◌||◌, ◌≡◌, refl, arith, List, [],
  ◌∷◌, ◌++◌, map, any, All, Any, All-map_imp, Option-cases, inl, inr, Ordering,
}
use newell_ai.Common.Keys.{text_order, same_key_iff}
use newell_ai.Idb.{get}
use newell_ai.Idb.Members.{holds, holds-put, holds-put_self, holds-put_all, holds-Any}
use newell_ai.Queue.Types.{QueueEnvelope, DeadLetter, EnqueueInput, QueueState, SyncOutcome}
use newell_ai.Queue.Db.{QueueDb, queue_key, dead_key}
use newell_ai.Queue.Enqueue.{enqueue, accept, new_envelope, next_turn_sequence}
use newell_ai.Queue.Identity.{identity, registered_key, enqueue-known, enqueue-new}
use newell_ai.Queue.Operations.{
  rewrite_state, recover_in_flight, requeue_auth_blocked, hold_pending_as_auth_blocked,
  force_pending_due, clear_dead_letters, set_status,
}
use newell_ai.Queue.Sync.Select.{select_batch}
use newell_ai.Queue.Sync.Result.{Progress, has_code, apply_item, apply_items, apply_result}
use newell_ai.Queue.Sync.Delivery.{apply_item-queue, apply_item-dead}
use newell_ai.Queue.System.{
  System, Step, Reach, start, next, enqueue_turn, recover, requeue, hold, force, clear,
  update_status, begin_sync, end_sync, noted, acknowledged,
}

abbrev pub contains : List Text → Text → Bool
contains ids j = any (text_eq j) ids

any-append :
    {A : Type 0} (p : A → Bool) (xs ys : List A) → any p (xs ++ ys) ≡ (any p xs || any p ys)
unfolding any
any-append p [] ys = refl
any-append p (x ∷ xs) ys = ground (arith, any-append p xs ys)

contains-Any :
    {A : Type 0} (key : A → Text) (j : Text) (xs : List A)
    → Any (λ x. key x ≡ j) xs
    → contains (map key xs) j ≡ true
unfolding any
contains-Any key j [] h = elim h [ ]
contains-Any key j (x ∷ xs) (inl e) = ground (arith, text_eq_iff j (key x))
contains-Any key j (x ∷ xs) (inr h) = ground (arith, contains-Any key j xs h)

-- The id is in the queue or among the dead letters.
abbrev pub is_held : List QueueEnvelope → List DeadLetter → Text → Bool
is_held queue dead j = holds queue_key j queue || holds dead_key j dead

-- Or the server acknowledged it, or the operator cleared it.
abbrev pub is_accounted : System → Text → Bool
is_accounted s j = is_held s.db.queue s.db.dead j || contains s.delivered j || contains s.cleared j

module _ (status : Option ℕ) (now : ℕ) (j : Text) where
  apply_item-held :
      (e : QueueEnvelope) (p : Progress)
      → is_held p.queue p.dead j ≡ true
      → let p' = apply_item status now e p in
        (is_held p'.queue p'.dead j || (has_code 200 status && text_eq j e.queue_id)) ≡ true
  apply_item-held e p h = ground (
    arith,
    apply_item-queue status now e p j,
    apply_item-dead status now e p j,
    same_key_iff j e.queue_id,
    text_eq_iff j e.queue_id,
  )

  apply_items-held :
      (batch : List QueueEnvelope) (p : Progress)
      → is_held p.queue p.dead j ≡ true
      → let p' = apply_items status now batch p in
        (is_held p'.queue p'.dead j || (has_code 200 status && contains (map queue_key batch) j))
        ≡ true
  unfolding apply_items any
  apply_items-held [] p h = ground arith
  apply_items-held (e ∷ batch) p h =
      ground (arith, apply_item-held e p h, apply_items-held batch (apply_item status now e p))

or_mono : (a a' b : Bool) → (a ≡ true → a' ≡ true) → (a || b) ≡ true → (a' || b) ≡ true
or_mono true a' b f h = rw (f refl)
or_mono false true b f h = refl
or_mono false false b f h = h

rewrite_state-accounted :
    (state : QueueState) (change : QueueEnvelope → QueueEnvelope) (s : System) (j : Text)
    → is_accounted s j ≡ true
    → is_accounted (record s { db = (rewrite_state state change s.db).1 }) j ≡ true
unfolding rewrite_state
rewrite_state-accounted state change s j h =
    or_mono _ _ _ (or_mono _ _ _ (or_mono _ _ _ (holds-put_all queue_key j _ s.db.queue))) h

enqueue-held :
    (db : QueueDb) (input : EnqueueInput) (turn_uuid queue_uuid : Text) (now : ℕ) (j : Text)
    → is_held db.queue db.dead j ≡ true
    → let db' = (enqueue db input turn_uuid queue_uuid now).1 in is_held db'.queue db'.dead j ≡ true
enqueue-held db input turn_uuid queue_uuid now j h =
    let key = registered_key db input turn_uuid queue_uuid now in
    elim (Option-cases (identity db input.conversation.conversation_id key)) [
      | inl new ↦
          rw (enqueue-new db input turn_uuid queue_uuid now new)
            (unfold accept in or_mono _ _ _ (holds-put queue_key j _ db.queue) h)
      | inr (r, known) ↦ rw (enqueue-known db input turn_uuid queue_uuid now r known) h
    ]

clear-accounted :
    (s : System) (j : Text)
    → is_accounted s j ≡ true
    → is_accounted
        (record s {
          db = (clear_dead_letters s.db).1;
          cleared = map dead_key s.db.dead ++ s.cleared;
        })
        j
      ≡ true
unfolding clear_dead_letters get
clear-accounted s j h = rw (any-append (text_eq j) (map dead_key s.db.dead) s.cleared) (
    move (holds queue_key j s.db.queue) (holds dead_key j s.db.dead) _ _ _
      (λ k. contains-Any dead_key j s.db.dead (holds-Any dead_key j s.db.dead k)) h)
  where
    move :
        (q d x c m : Bool)
        → (d ≡ true → m ≡ true)
        → ((q || d) || x || c) ≡ true
        → ((q || false) || x || (m || c)) ≡ true
    move q d x c m f h = ground (arith, f)

begin-accounted :
    (s : System) (locale_compare : Text → Text → Ordering) (now : ℕ) (j : Text)
    → is_accounted s j ≡ true
    → is_accounted
        (record s {
          db = record (s.db) { queue = (select_batch locale_compare now s.db.queue).1 };
          batch = (select_batch locale_compare now s.db.queue).0;
        })
        j
      ≡ true
unfolding select_batch
begin-accounted s locale_compare now j h =
    or_mono _ _ _
      (or_mono _ _ _ (
        or_mono _ _ _
          (λ k. holds-put_all queue_key j _ _ (holds-put_all queue_key j _ s.db.queue k))))
      h

end-accounted :
    (s : System) (status : Option ℕ) (now : ℕ) (outcome : SyncOutcome) (diagnostic : Option Text)
    (j : Text)
    → is_accounted s j ≡ true
    → is_accounted
        (record s {
          db = (apply_result s.db s.batch status now outcome diagnostic).1;
          batch = [];
          delivered = acknowledged status s.batch s.delivered;
        })
        j
      ≡ true
unfolding apply_result set_status
end-accounted s status now outcome diagnostic j h =
    let p : Progress = record { queue = s.db.queue; dead = s.db.dead; outcome = outcome } in
    ground (
      arith,
      apply_items-held status now j s.batch p,
      any-append (text_eq j) (map queue_key s.batch) s.delivered,
    )

pub record IsConserved (s : System) : Type 0 where
  pub accounted : All (λ x. is_accounted s x.0 ≡ true) s.accepted

enqueue-IsConserved :
    (s : System) (input : EnqueueInput) (turn_uuid queue_uuid : Text) (now : ℕ)
    → IsConserved s
    → IsConserved (record s {
      db = (enqueue s.db input turn_uuid queue_uuid now).1;
      accepted = noted input queue_uuid (enqueue s.db input turn_uuid queue_uuid now).0 s.accepted;
    })
enqueue-IsConserved s input turn_uuid queue_uuid now h =
    let key = registered_key s.db input turn_uuid queue_uuid now in
    let c = input.conversation.conversation_id in
    elim (Option-cases (identity s.db c key)) [
      | inl new ↦ rw (enqueue-new s.db input turn_uuid queue_uuid now new) (
          unfold accept in
          record {
            accounted = (
              ground (
                arith,
                holds-put_self queue_key
                    (new_envelope input key (next_turn_sequence s.db c) queue_uuid now) s.db.queue,
              ),
              All-map_imp (λ x. is_accounted s x.0 ≡ true) _ s.accepted
                  (λ x k.
                    or_mono _ _ _
                      (or_mono _ _ _ (or_mono _ _ _ (holds-put queue_key x.0 _ s.db.queue))) k)
                  h.accounted,
            );
          })
      | inr (r, known) ↦
          rw (enqueue-known s.db input turn_uuid queue_uuid now r known)
            (record { accounted = h.accounted })
    ]

-- A step that accepts nothing conserves what it keeps accounted for.
kept :
    (s t : System)
    → t.accepted ≡ s.accepted
    → ((j : Text) → is_accounted s j ≡ true → is_accounted t j ≡ true)
    → IsConserved s
    → IsConserved t
kept s t same keep h = record {
  accounted =
      rw same
        (All-map_imp (λ x. is_accounted s x.0 ≡ true) _ s.accepted (λ x. keep x.0) h.accounted);
}

Step-IsConserved : {s t : System} → Step s t → IsConserved s → IsConserved t
unfolding recover_in_flight requeue_auth_blocked hold_pending_as_auth_blocked force_pending_due
    set_status
Step-IsConserved {s} (enqueue_turn input tu qu now fresh) h =
    enqueue-IsConserved s input tu qu now h
Step-IsConserved {s} recover h = kept s _ refl (rewrite_state-accounted _ _ s) h
Step-IsConserved {s} requeue h = kept s _ refl (rewrite_state-accounted _ _ s) h
Step-IsConserved {s} hold h = kept s _ refl (rewrite_state-accounted _ _ s) h
Step-IsConserved {s} force h = kept s _ refl (rewrite_state-accounted _ _ s) h
Step-IsConserved {s} clear h = kept s _ refl (clear-accounted s) h
Step-IsConserved {s} (update_status u) h = kept s _ refl (λ j k. k) h
Step-IsConserved {s} (begin_sync locale_compare now none_yet) h =
    kept s _ refl (begin-accounted s locale_compare now) h
Step-IsConserved {s} (end_sync status now outcome diagnostic) h =
    kept s _ refl (end-accounted s status now outcome diagnostic) h

pub Reach-IsConserved : {s : System} → Reach s → IsConserved s
Reach-IsConserved start = record { accounted = tt }
Reach-IsConserved (next r step) = Step-IsConserved step (Reach-IsConserved r)
