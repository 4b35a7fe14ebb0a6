-- ===== src/Queue/System/Guarantee.antt =====
-- The delivery guarantee of the queue: what has become of an accepted turn.
use newell_ai.Common.{
  Text, some, true, ◌≡◌, ◌∙◌, sym, List, [], ◌∷◌, All, Any, Option-cases, ◌⊎◌, inl, inr, arith,
  Bool-cases,
}
use newell_ai.Common.Keys.{text_order}
use newell_ai.Contracts.{TurnPayload}
use newell_ai.Idb.{get}
use newell_ai.Idb.Laws.{key-get}
use newell_ai.Idb.Members.{get-All}
use newell_ai.Queue.Types.{QueueEnvelope, DeadLetter}
use newell_ai.Queue.Db.{queue_key, dead_key}
use newell_ai.Queue.System.{System, Reach}
use newell_ai.Queue.System.Conservation.{contains, is_accounted, Reach-IsConserved}
use newell_ai.Queue.System.Payload.{IsKnown, IsKnownLetter, Reach-IsFaithful, unique_turn}

-- An accepted turn waits in the queue, is a dead letter, was acknowledged by the server, or was
-- cleared by the operator as a dead letter.
abbrev pub Fate : System → Text → TurnPayload → Type 0
Fate s j t =
    ((e : QueueEnvelope) × (get queue_key j s.db.queue ≡ some e) × (e.turn ≡ t))
    ⊎ ((d : DeadLetter) × (get dead_key j s.db.dead ≡ some d) × (d.envelope.turn ≡ t))
    ⊎ (contains s.delivered j ≡ true)
    ⊎ (contains s.cleared j ≡ true)

apply_to :
    (P : Text × TurnPayload → Type 0) (Q : Text × TurnPayload → Type 0) (R : Type 0)
    (xs : List (Text × TurnPayload))
    → ((x : Text × TurnPayload) → P x → Q x → R)
    → All P xs
    → Any Q xs
    → R
apply_to P Q R [] f h k = elim k [ ]
apply_to P Q R (x ∷ xs) f (h, hs) (inl k) = f x h k
apply_to P Q R (x ∷ xs) f (h, hs) (inr k) = apply_to P Q R xs f hs k

module _ {s : System} (r : Reach s) (j : Text) (t : TurnPayload) where
  abbrev WasAccepted : Type 0
  WasAccepted = Any (λ x. (x.0 ≡ j) × (x.1 ≡ t)) s.accepted

  same_turn : (e : QueueEnvelope) → WasAccepted → IsKnown s.accepted e → e.queue_id ≡ j → e.turn ≡ t
  same_turn e given known id =
      apply_to (λ x. x.0 ≡ j → x.1 ≡ t) (λ x. (x.0 ≡ e.queue_id) × (x.1 ≡ e.turn)) (e.turn ≡ t)
        s.accepted (λ x same k. sym k.1 ∙ same (k.0 ∙ id))
        (unique_turn s.accepted j t (Reach-IsFaithful r).unique given) known

  -- In every reachable state, with transactions and requests interleaved in any way, each turn
  -- that `enqueue` accepted is in the queue or among the dead letters with its payload unchanged,
  -- or was acknowledged by the server with status 200, or was cleared by the operator.
  pub Reach-Fate : WasAccepted → Fate s j t
  Reach-Fate given =
      let ok : is_accounted s j ≡ true =
        apply_to (λ x. is_accounted s x.0 ≡ true) (λ x. (x.0 ≡ j) × (x.1 ≡ t))
          (is_accounted s j ≡ true) s.accepted (λ x h k. rw k.0 at h)
          (Reach-IsConserved r).accounted given in
      let faithful = Reach-IsFaithful r in
      elim (Option-cases (get queue_key j s.db.queue)) [
        | inr (e, found) ↦ inl (
          e,
          found,
          same_turn e given (get-All queue_key _ j s.db.queue e faithful.queue found)
              (key-get queue_key j s.db.queue e found),
        )
        | inl missed ↦ elim (Option-cases (get dead_key j s.db.dead)) [
          | inr (d, found) ↦ inr (
              inl (
                d,
                found,
                same_turn d.envelope given
                    (get-All dead_key (IsKnownLetter s.accepted) j s.db.dead d faithful.dead found)
                    (key-get dead_key j s.db.dead d found),
              ))
          | inl gone ↦ elim (Bool-cases (contains s.delivered j)) [
            | inl yes_d ↦ inr (inr (inl yes_d))
            | inr no_d ↦ inr (inr (inr (ground arith)))
          ]
        ]
      ]
