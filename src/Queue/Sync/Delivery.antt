-- ===== src/Queue/Sync/Delivery.antt =====
-- What the loop of `applyResult` leaves of the records of the batch, and of all others.
use newell_ai.Common.{
  ℕ, ◌+◌, Text, codes, Option, none, some, false, ◌||◌, ◌≡◌, refl, ap, ◌∙◌, arith, List, [], ◌∷◌,
  ◌++◌, leb, if◌then◌else◌, All, All-zip_imp,
}
use newell_ai.Common.Keys.{text_order, same_key, same_key_sym, cmp_refl}
use newell_ai.Idb.{get}
use newell_ai.Idb.Laws.{get-put, get-delete}
use newell_ai.Queue.Types.{QueueEnvelope, DeadLetter, pending, max_attempts, backoff_ms}
use newell_ai.Queue.Db.{queue_key, dead_key}
use newell_ai.Queue.Operations.{to_auth_blocked, to_pending}
use newell_ai.Queue.Sync.Result.{
  Progress, has_code, is_permanent, status_text, transient, apply_item, apply_items,
}

abbrev pub retried_copy : QueueEnvelope → ℕ → QueueEnvelope
retried_copy item now = record item {
  state = pending;
  attempts = item.attempts + 1;
  next_attempt_at = now + backoff_ms (item.attempts + 1);
}

abbrev pub permanent_letter : Option ℕ → QueueEnvelope → ℕ → DeadLetter
permanent_letter status item now = record {
  envelope = to_pending item;
  reason = codes "permanent rejection (HTTP " ++ status_text status ++ codes ")";
  dead_at = now;
}

abbrev pub exhausted_letter : QueueEnvelope → ℕ → DeadLetter
exhausted_letter item now = record {
  envelope = record item { state = pending; attempts = item.attempts + 1 };
  reason = codes "max attempts exceeded";
  dead_at = now;
}

-- What the store `queue` holds of a record of the batch behind the loop.
abbrev pub queue_fate : Option ℕ → ℕ → QueueEnvelope → Option QueueEnvelope
queue_fate status now item =
    if has_code 200 status
    then none
    else if has_code 401 status
    then some (to_auth_blocked item)
    else if is_permanent status
    then none
    else if leb max_attempts (item.attempts + 1)
    then none
    else some (record item {
      state = pending;
      attempts = item.attempts + 1;
      next_attempt_at = now + backoff_ms (item.attempts + 1);
    })

-- The letter that the store `dead` holds behind the loop, if the record was given up.
abbrev pub dead_fate : Option ℕ → ℕ → QueueEnvelope → Option DeadLetter
dead_fate status now item =
    if has_code 200 status || has_code 401 status
    then none
    else if is_permanent status
    then some (record {
      envelope = to_pending item;
      reason = codes "permanent rejection (HTTP " ++ status_text status ++ codes ")";
      dead_at = now;
    })
    else if leb max_attempts (item.attempts + 1)
    then some (record {
      envelope = record item { state = pending; attempts = item.attempts + 1 };
      reason = codes "max attempts exceeded";
      dead_at = now;
    })
    else none

-- A letter that was there before stays unless a new one takes its place.
abbrev pub or_before : Option DeadLetter → Option DeadLetter → Option DeadLetter
or_before none before = before
or_before (some d) before = some d

-- Records whose ids the batch does not hold.
abbrev pub IsOutside : Text → List QueueEnvelope → Type 0
IsOutside j batch = All (λ e. same_key j e.queue_id ≡ false) batch

-- Every id occurs once.
abbrev pub HasDistinctIds : List QueueEnvelope → Type 0
HasDistinctIds [] = Unit
HasDistinctIds (e ∷ batch) = IsOutside e.queue_id batch × HasDistinctIds batch

module _ (status : Option ℕ) (now : ℕ) where
  pub apply_item-queue :
      (item : QueueEnvelope) (p : Progress) (j : Text)
      → get queue_key j (apply_item status now item p).queue
        ≡ (if same_key j item.queue_id then queue_fate status now item else get queue_key j p.queue)
  unfolding apply_item transient
  apply_item-queue item p j = ground (
    arith,
    get-delete queue_key j item.queue_id p.queue,
    get-put queue_key j (to_auth_blocked item) p.queue,
    get-put queue_key j (retried_copy item now) p.queue,
  )

  pub apply_item-dead :
      (item : QueueEnvelope) (p : Progress) (j : Text)
      → get dead_key j (apply_item status now item p).dead ≡ (
          if same_key j item.queue_id
          then or_before (dead_fate status now item) (get dead_key j p.dead)
          else get dead_key j p.dead)
  unfolding apply_item transient
  apply_item-dead item p j = ground (
    arith,
    get-put dead_key j (permanent_letter status item now) p.dead,
    get-put dead_key j (exhausted_letter item now) p.dead,
  )

  apply_items-outside :
      (batch : List QueueEnvelope) (p : Progress) (j : Text)
      → IsOutside j batch
      → (get queue_key j (apply_items status now batch p).queue ≡ get queue_key j p.queue)
        × (get dead_key j (apply_items status now batch p).dead ≡ get dead_key j p.dead)
  unfolding apply_items
  apply_items-outside [] p j h = (refl, refl)
  apply_items-outside (e ∷ batch) p j (h, hs) =
      let (q, d) = apply_items-outside batch (apply_item status now e p) j hs in
      (q ∙ apply_item-queue e p j ∙ rw h, d ∙ apply_item-dead e p j ∙ rw h)

  -- Each record of the batch meets the fate of its own attempts and the status.
  pub apply_items-fate :
      (batch : List QueueEnvelope) (p : Progress)
      → HasDistinctIds batch
      → All
          (λ e.
            (get queue_key e.queue_id (apply_items status now batch p).queue
              ≡ queue_fate status now e)
            × (get dead_key e.queue_id (apply_items status now batch p).dead
                ≡ or_before (dead_fate status now e) (get dead_key e.queue_id p.dead)))
          batch
  unfolding apply_items
  apply_items-fate [] p h = tt
  apply_items-fate (e ∷ batch) p (h, hs) =
      let p' = apply_item status now e p in
      let (q, d) = apply_items-outside batch p' e.queue_id h in
      (
        (
          q ∙ apply_item-queue e p e.queue_id ∙ rw (cmp_refl e.queue_id),
          d ∙ apply_item-dead e p e.queue_id ∙ rw (cmp_refl e.queue_id),
        ),
        All-zip_imp (λ x. same_key e.queue_id x.queue_id ≡ false) _ _ batch
            (λ x out k.
              let other = same_key_sym e.queue_id x.queue_id out in
              (
                k.0,
                k.1
                    ∙ ap (or_before (dead_fate status now x))
                        (apply_item-dead e p x.queue_id ∙ rw other),
              ))
            h (apply_items-fate batch p' hs),
      )
