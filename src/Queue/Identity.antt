-- ===== src/Queue/Identity.antt =====
-- The identity registry and the sequence counters under `enqueue`.
use newell_ai.Common.{
  ℕ, Text, Option, none, some, ◌≡◌, refl, ◌∙◌, arith, inl, inr, Option-cases, or_else,
}
use newell_ai.Common.Keys.{text_order, pair_order, cmp_refl}
use newell_ai.Idb.{get}
use newell_ai.Idb.Laws.{get-put}
use newell_ai.Queue.Types.{EnqueueInput, EnqueueResult, accepted, already_known, IdentityRecord}
use newell_ai.Queue.Db.{QueueDb, identity_key}
use newell_ai.Queue.Enqueue.{
  validate_source_key, next_turn_sequence, accept, enqueue, lookup_client_turn_id, new_identity,
}

abbrev pub turn_id_of : EnqueueResult → Text
turn_id_of (accepted id n) = id
turn_id_of (already_known id n) = id

abbrev pub sequence_of : EnqueueResult → ℕ
sequence_of (accepted id n) = n
sequence_of (already_known id n) = n

-- What the registry holds for a key of a conversation.
abbrev pub identity : QueueDb → Text → Text → Option IdentityRecord
identity db c k = get identity_key (c, k) db.identities

module _ (db : QueueDb) (input : EnqueueInput) (turn_uuid queue_uuid : Text) (now : ℕ) where
  -- The key under which the call registers the turn.
  abbrev pub registered_key : Text
  registered_key = or_else (validate_source_key input.source_key) turn_uuid

  identity-accept :
      (k : Text)
      → let (result, db') = accept db input k k queue_uuid now in
        (r : IdentityRecord) × (identity db' input.conversation.conversation_id k ≡ some r)
        × (r.client_turn_id ≡ turn_id_of result)
        × (r.sequence ≡ sequence_of result)
  unfolding accept
  identity-accept k =
      let c = input.conversation.conversation_id in
      let r = new_identity c k k (next_turn_sequence db c) in
      (
        r,
        get-put identity_key (c, k) r db.identities ∙ rw (cmp_refl ⦃o = pair_order⦄ (c, k)),
        refl,
        refl,
      )

  pub enqueue-known :
      (r : IdentityRecord)
      → identity db input.conversation.conversation_id registered_key ≡ some r
      → enqueue db input turn_uuid queue_uuid now ≡ (already_known r.client_turn_id r.sequence, db)
  unfolding enqueue
  enqueue-known r h = ground arith

  pub enqueue-new :
      identity db input.conversation.conversation_id registered_key ≡ none
      → enqueue db input turn_uuid queue_uuid now
        ≡ accept db input registered_key registered_key queue_uuid now
  unfolding enqueue
  enqueue-new h = ground arith

  -- The identity that the call returns is the one that the registry holds afterwards.
  pub identity-enqueue_self :
      let (result, db') = enqueue db input turn_uuid queue_uuid now in
      (r : IdentityRecord) × (identity db' input.conversation.conversation_id registered_key
        ≡ some r)
      × (r.client_turn_id ≡ turn_id_of result)
      × (r.sequence ≡ sequence_of result)
  identity-enqueue_self =
      elim (Option-cases (identity db input.conversation.conversation_id registered_key)) [
        | inl new ↦ rw (enqueue-new new) (identity-accept registered_key)
        | inr (r, known) ↦ rw (enqueue-known r known) (r, known, refl, refl)
      ]

module _ (db : QueueDb) (input : EnqueueInput) (turn_uuid queue_uuid : Text) (now : ℕ)
    (k : Text) where
  identity-enqueue_key :
      validate_source_key input.source_key ≡ some k
      → let (result, db') = enqueue db input turn_uuid queue_uuid now in
        (r : IdentityRecord) × (identity db' input.conversation.conversation_id k ≡ some r)
        × (r.client_turn_id ≡ turn_id_of result)
        × (r.sequence ≡ sequence_of result)
  identity-enqueue_key valid =
      let (r, found, id, sequence) = identity-enqueue_self db input turn_uuid queue_uuid now in
      (r, rw valid at found, id, sequence)

  -- A second `enqueue` of the same source key in the conversation, whatever else it brings and
  -- whenever it runs, returns the identity of the first and changes nothing.
  pub enqueue_again :
      (again : EnqueueInput) (turn_uuid' queue_uuid' : Text) (now' : ℕ)
      → validate_source_key input.source_key ≡ some k
      → validate_source_key again.source_key ≡ some k
      → again.conversation.conversation_id ≡ input.conversation.conversation_id
      → let (result, db') = enqueue db input turn_uuid queue_uuid now in
        enqueue db' again turn_uuid' queue_uuid' now'
        ≡ (already_known (turn_id_of result) (sequence_of result), db')
  enqueue_again again turn_uuid' queue_uuid' now' first second same =
      let (r, found, id, sequence) = identity-enqueue_key first in
      let db' = (enqueue db input turn_uuid queue_uuid now).1 in
      rw (← id, ← sequence)
        (enqueue-known db' again turn_uuid' queue_uuid' now' r (rw (same, second) found))

  -- After `enqueue` of a source key, `lookupClientTurnId` returns the turn id that it returned.
  pub lookup_client_turn_id-enqueue :
      (source_key : Text)
      → input.source_key ≡ some source_key
      → validate_source_key (some source_key) ≡ some k
      → let (result, db') = enqueue db input turn_uuid queue_uuid now in
        lookup_client_turn_id db' input.conversation.conversation_id source_key
        ≡ some (turn_id_of result)
  unfolding lookup_client_turn_id
  lookup_client_turn_id-enqueue source_key given good =
      let (r, found, id, sequence) = identity-enqueue_key (rw given good) in
      ground (arith, found, id, good)
