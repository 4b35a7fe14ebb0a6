-- ===== src/Queue/Numbering.antt =====
-- The numbers that `enqueue` gives out in a conversation.
use newell_ai.Common.{
  ℕ, ◌+◌, ◌≤◌, ◌<◌, ◌==◌, Text, none, some, List, [], ◌∷◌, Bool-cases, ◌≡◌, arith, inl, inr,
  Option-cases, if◌then◌else◌,
}
use newell_ai.Common.Keys.{text_order, pair_order, same_key, same_key_iff}
use newell_ai.Idb.{get}
use newell_ai.Idb.Laws.{get-put}
use newell_ai.Queue.Types.{EnqueueInput, IdentityRecord}
use newell_ai.Queue.Db.{QueueDb, identity_key, sequence_key}
use newell_ai.Queue.Enqueue.{next_turn_sequence, accept, enqueue, new_identity, counter}
use newell_ai.Queue.System.{empty_db}
use newell_ai.Queue.Identity.{identity, registered_key, enqueue-known, enqueue-new}

-- In every conversation the registered numbers are those from 1 to below the counter, without a gap,
-- and belong to one source key each.
pub record IsNumbered (db : QueueDb) : Type 0 where
  pub positive : (c : Text) → 1 ≤ next_turn_sequence db c
  pub low : (c k : Text) (r : IdentityRecord) → identity db c k ≡ some r → 1 ≤ r.sequence
  pub below :
      (c k : Text) (r : IdentityRecord)
      → identity db c k ≡ some r
      → r.sequence < next_turn_sequence db c
  pub dense :
      (c : Text) (n : ℕ)
      → 1 ≤ n
      → n < next_turn_sequence db c
      → (k : Text) × (r : IdentityRecord) × (identity db c k ≡ some r) × (r.sequence ≡ n)
  pub distinct :
      (c j k : Text) (q r : IdentityRecord)
      → identity db c j ≡ some q
      → identity db c k ≡ some r
      → q.sequence ≡ r.sequence
      → j ≡ k

module _ (db : QueueDb) (input : EnqueueInput) (client_turn_id k queue_uuid : Text) (now : ℕ) where
  abbrev after : QueueDb
  after = (accept db input client_turn_id k queue_uuid now).1

  abbrev conversation : Text
  conversation = input.conversation.conversation_id

  identity-accept_at :
      (c j : Text)
      → identity after c j ≡ (
          if same_key ⦃o = pair_order⦄ (c, j) (conversation, k)
          then some
              (new_identity conversation k client_turn_id (next_turn_sequence db conversation))
          else identity db c j)
  unfolding accept
  identity-accept_at c j = get-put identity_key (c, j) _ db.identities

  next_turn_sequence-accept :
      (c : Text)
      → next_turn_sequence after c ≡ (
          if same_key c conversation
          then next_turn_sequence db conversation + 1
          else next_turn_sequence db c)
  unfolding accept next_turn_sequence
  next_turn_sequence-accept c = ground (
    arith,
    get-put sequence_key c (counter conversation (next_turn_sequence db conversation + 1))
        db.sequences,
  )

  accept-dense :
      identity db conversation k ≡ none
      → IsNumbered db
      → (c : Text) (n : ℕ) → 1 ≤ n
      → n < next_turn_sequence after c
      → (j : Text) × (r : IdentityRecord) × (identity after c j ≡ some r) × (r.sequence ≡ n)
  accept-dense new h c n low high = elim (Bool-cases (same_key c conversation)) [
    | inr other ↦
        let (j, r, there, number) = h.dense c n low (ground (arith, next_turn_sequence-accept c)) in
        (
          j,
          r,
          ground (
            arith,
            identity-accept_at c j,
            same_key_iff c conversation,
            same_key_iff ⦃o = pair_order⦄ (c, j) (conversation, k),
          ),
          number,
        )
    | inl e ↦ elim (Bool-cases (n == next_turn_sequence db conversation)) [
      | inl last ↦ (
        k,
        new_identity conversation k client_turn_id (next_turn_sequence db conversation),
        ground (
          arith,
          identity-accept_at c k,
          same_key_iff c conversation,
          same_key_iff ⦃o = pair_order⦄ (c, k) (conversation, k),
        ),
        ground (arith, last),
      )
      | inr before ↦
          let same = (same_key_iff c conversation).0 e in
          let (j, r, there, number) =
            h.dense conversation n low (ground (arith, next_turn_sequence-accept c, e, before)) in
          (
            j,
            r,
            ground (
              arith,
              identity-accept_at c j,
              same,
              there,
              new,
              same_key_iff ⦃o = pair_order⦄ (c, j) (conversation, k),
            ),
            number,
          )
    ]
  ]

  accept-IsNumbered : identity db conversation k ≡ none → IsNumbered db → IsNumbered after
  accept-IsNumbered new h = record {
    positive = λ c. ground (arith, next_turn_sequence-accept c, h.positive c);
    low = λ c j r e. ground (arith, identity-accept_at c j, h.low c j r, h.positive conversation);
    below = λ c j r e. ground (
      arith,
      identity-accept_at c j,
      next_turn_sequence-accept c,
      h.below c j r,
      same_key_iff c conversation,
      same_key_iff ⦃o = pair_order⦄ (c, j) (conversation, k),
    );
    dense = accept-dense new h;
    distinct = λ c i j q r e f same. ground (
      arith,
      identity-accept_at c i,
      identity-accept_at c j,
      h.below c i q,
      h.below c j r,
      h.distinct c i j q r,
      same_key_iff ⦃o = pair_order⦄ (c, i) (conversation, k),
      same_key_iff ⦃o = pair_order⦄ (c, j) (conversation, k),
    );
  }

enqueue-IsNumbered :
    (db : QueueDb) (input : EnqueueInput) (turn_uuid queue_uuid : Text) (now : ℕ)
    → IsNumbered db
    → IsNumbered (enqueue db input turn_uuid queue_uuid now).1
enqueue-IsNumbered db input turn_uuid queue_uuid now h =
    let key = registered_key db input turn_uuid queue_uuid now in
    elim (Option-cases (identity db input.conversation.conversation_id key)) [
      | inl new ↦
          rw (enqueue-new db input turn_uuid queue_uuid now new)
            (accept-IsNumbered db input key key queue_uuid now new h)
      | inr (r, known) ↦ rw (enqueue-known db input turn_uuid queue_uuid now r known) h
    ]

-- A call of `enqueue`.
pub record EnqueueCall : Type 0 where
  pub input : EnqueueInput
  pub turn_uuid : Text
  pub queue_uuid : Text
  pub now : ℕ

abbrev pub enqueued_by : EnqueueCall → QueueDb → QueueDb
enqueued_by c db = (enqueue db c.input c.turn_uuid c.queue_uuid c.now).1

-- The database behind calls, of which the last is the first of the list.
abbrev pub enqueue_all : List EnqueueCall → QueueDb
enqueue_all [] = empty_db
enqueue_all (c ∷ calls) = enqueued_by c (enqueue_all calls)

empty_db-IsNumbered : IsNumbered empty_db
unfolding next_turn_sequence get
empty_db-IsNumbered = record {
  positive = λ c. omega arith;
  low = λ c k r e. cc;
  below = λ c k r e. cc;
  dense = λ c n low high. absurd (omega arith);
  distinct = λ c j k q r e f same. cc;
}

-- Behind any calls of `enqueue` from the empty database on, the numbers given out in a conversation
-- are 1, 2, 3 and so on up to below its counter, without a gap, and each stands for one source key.
pub enqueue_all-IsNumbered : (calls : List EnqueueCall) → IsNumbered (enqueue_all calls)
enqueue_all-IsNumbered [] = empty_db-IsNumbered
enqueue_all-IsNumbered (c ∷ calls) =
    enqueue-IsNumbered (enqueue_all calls) c.input c.turn_uuid c.queue_uuid c.now
      (enqueue_all-IsNumbered calls)
