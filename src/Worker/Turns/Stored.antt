-- ===== src/Worker/Turns/Stored.antt =====
-- What an upload leaves in the table of turns, field by field.
use newell_ai.Common.{
  ℕ, suc, ◌+◌, Text, none, some, Bool, true, false, List, [], ◌∷◌, length, ◌≡◌, refl, sym, ap,
  subst, arith, ◌⊎◌, inl, inr, Option-cases, All, Any, All-map_imp, if◌then◌else◌,
}
use newell_ai.Common.Keys.{KeyOrder, text_order, pair_order}
use newell_ai.Idb.{get, put}
use newell_ai.Idb.Laws.{get-put}
use newell_ai.Contracts.{TurnPayload, UploadRequest}
use newell_ai.Worker.Db.{TurnRow, WorkerDb, turn_key, insert_new}
use newell_ai.Worker.Turns.{
  PersistResult, insert_conversation, turn_row, count_change, insert_turns, persist,
}
use newell_ai.Worker.Turns.Laws.{payload_key, insert_new-holds, insert_turns-keeps, persist-stores}

-- The row has what the upload says of the turn, and the time of the upload.
pub record IsRowOf (upload : UploadRequest) (now : Text) (turn : TurnPayload) (row : TurnRow)
    : Type 0 where
  pub conversation_id : row.conversation_id ≡ upload.conversation.conversation_id
  pub client_turn_id : row.client_turn_id ≡ turn.client_turn_id
  pub speaker : row.speaker ≡ turn.speaker
  pub text : row.text ≡ turn.text
  pub captured_at : row.captured_at ≡ turn.captured_at
  pub sequence : row.sequence ≡ turn.sequence
  pub parent : row.parent_client_turn_id ≡ turn.parent_client_turn_id
  pub message_type : row.message_type ≡ turn.message_type
  pub topic : row.topic ≡ turn.topic
  pub client : row.capture_client ≡ upload.capture.capture_client
  pub client_version : row.capture_client_version ≡ upload.capture.capture_client_version
  pub surface : row.surface ≡ upload.capture.surface
  pub batch : row.captured_batch_id ≡ upload.capture.captured_batch_id
  pub created_at : row.created_at ≡ now

module _ {K A : Type 0} ⦃o : KeyOrder K⦄ (key : A → K) where
  put-length_new :
      (v : A) (s : List A) → get key (key v) s ≡ none → length (put key v s) ≡ suc (length s)
  unfolding put get
  put-length_new v [] h = refl
  put-length_new v (x ∷ s) h = ground (arith, put-length_new v s)

  insert_new-length :
      (row : A) (t : List A)
      → length (insert_new key row t).1 ≡ length t + (if (insert_new key row t).0 then 1 else 0)
  unfolding insert_new
  insert_new-length row t = elim (Option-cases (get key (key row) t)) [
    | inl new ↦ rw (new, insert_new) (ground (arith, put-length_new row t new))
    | inr (old, known) ↦ rw (known, insert_new) (omega arith)
  ]

  -- What is in the table afterwards was there before or is the row.
  insert_new-from :
      (row : A) (t : List A) (k : K) (x : A)
      → get key k (insert_new key row t).1 ≡ some x
      → (get key k t ≡ some x) ⊎ ((k ≡ key row) × (x ≡ row))
  unfolding insert_new
  insert_new-from row t k x h = ground (arith, get-put key k row t, o.cmp_eq k (key row), h)

module _ (upload : UploadRequest) (now : Text) (uuids : ℕ → Text) where
  -- The row of a turn is the one that was there before, or that of a turn of the upload with the
  -- same id: of several with one id the first is stored.
  abbrev pub IsStored : List TurnRow → List TurnRow → List TurnPayload → TurnPayload → Type 0
  IsStored before after turns turn =
      (row : TurnRow) × (get turn_key (payload_key upload now uuids turn) after ≡ some row)
      × ((get turn_key (payload_key upload now uuids turn) before ≡ some row)
          ⊎ Any (λ t. (t.client_turn_id ≡ turn.client_turn_id) × IsRowOf upload now t row) turns)

  turn_row-IsRowOf :
      (uuid : Text) (turn : TurnPayload) → IsRowOf upload now turn (turn_row upload now uuid turn)
  unfolding turn_row
  turn_row-IsRowOf uuid turn = record {
    conversation_id = refl;
    client_turn_id = refl;
    speaker = refl;
    text = refl;
    captured_at = refl;
    sequence = refl;
    parent = refl;
    message_type = refl;
    topic = refl;
    client = refl;
    client_version = refl;
    surface = refl;
    batch = refl;
    created_at = refl;
  }

  head-IsStored :
      (uuid : Text) (turn : TurnPayload) (turns : List TurnPayload) (t : List TurnRow)
      → IsStored t (insert_new turn_key (turn_row upload now uuid turn) t).1 (turn ∷ turns) turn
  unfolding turn_row
  head-IsStored uuid turn turns t =
      let new = turn_row upload now uuid turn in
      elim (Option-cases (get turn_key (turn_key new) (insert_new turn_key new t).1)) [
        | inl absent ↦
            let there = insert_new-holds turn_key new t in absurd (ground (arith, there, absent))
        | inr (row, found) ↦ elim (insert_new-from turn_key new t (turn_key new) row found) [
          | inl old ↦ (row, found, inl old)
          | inr (k, same) ↦ (
            row,
            found,
            inr (
                inl
                  (refl, subst (IsRowOf upload now turn) (sym same) (turn_row-IsRowOf uuid turn))),
          )
        ]
      ]

  -- What was stored from the table behind one turn was stored from the table before it.
  later-IsStored :
      (uuid : Text) (turn : TurnPayload) (turns : List TurnPayload) (t after : List TurnRow)
      (x : TurnPayload)
      → IsStored (insert_new turn_key (turn_row upload now uuid turn) t).1 after turns x
      → IsStored t after (turn ∷ turns) x
  unfolding turn_row
  later-IsStored uuid turn turns t after x (row, found, inr there) = (row, found, inr (inr there))
  later-IsStored uuid turn turns t after x (row, found, inl before) =
      let new = turn_row upload now uuid turn in
      elim (insert_new-from turn_key new t (payload_key upload now uuids x) row before) [
        | inl old ↦ (row, found, inl old)
        | inr (k, same) ↦ (
          row,
          found,
          inr (
              inl (
                sym (ap (λ (p : Text × Text). p.1) k),
                subst (IsRowOf upload now turn) (sym same) (turn_row-IsRowOf uuid turn),
              )),
        )
      ]

  insert_turns-IsStored :
      (n : ℕ) (turns : List TurnPayload) (r : PersistResult) (t : List TurnRow)
      → All (IsStored t (insert_turns upload now uuids n turns r t).1 turns) turns
  unfolding insert_turns
  insert_turns-IsStored n [] r t = tt
  insert_turns-IsStored n (turn ∷ turns) r t =
      let (inserted, t') = insert_new turn_key (turn_row upload now (uuids n) turn) t in
      let r' = count_change inserted r in
      let after = (insert_turns upload now uuids (suc n) turns r' t').1 in
      let (row, found, source) = head-IsStored (uuids n) turn turns t in
      (
        (row, insert_turns-keeps upload now uuids (suc n) turns r' t' _ row found, source),
        All-map_imp (IsStored t' after turns) (IsStored t after (turn ∷ turns)) turns
            (later-IsStored (uuids n) turn turns t after)
            (insert_turns-IsStored (suc n) turns r' t'),
      )

  insert_turns-added :
      (n : ℕ) (turns : List TurnPayload) (r : PersistResult) (t : List TurnRow)
      → let (r', after) = insert_turns upload now uuids n turns r t in
        length after + r.accepted ≡ length t + r'.accepted
  unfolding insert_turns
  insert_turns-added n [] r t = refl
  insert_turns-added n (turn ∷ turns) r t =
      let row = turn_row upload now (uuids n) turn in
      let (inserted, t') = insert_new turn_key row t in
      counted (insert_new turn_key row t).0 r _ _ _ (insert_new-length turn_key row t)
        (insert_turns-added (suc n) turns (count_change inserted r) t')
    where
      counted :
          (b : Bool) (r : PersistResult) (before after accepted : ℕ) {m : ℕ}
          → m ≡ before + (if b then 1 else 0)
          → after + (count_change b r).accepted ≡ m + accepted
          → after + r.accepted ≡ before + accepted
      counted true r before after accepted e f = omega (arith, e, f)
      counted false r before after accepted e f = omega (arith, e, f)

  -- The counts add up to the turns, the accepted ones are the rows that the table has more, and the
  -- row of each turn was there before or has all that the upload says of it.
  pub persist-IsStored :
      (db : WorkerDb)
      → let (r, after) = persist db upload now uuids in
        (r.accepted + r.duplicate ≡ length upload.turns)
        × (length after.turns ≡ length db.turns + r.accepted)
        × All (IsStored db.turns after.turns upload.turns) upload.turns
  unfolding persist insert_conversation
  persist-IsStored db =
      let start : PersistResult = record { accepted = 0; duplicate = 0 } in
      (
        (persist-stores db upload now uuids).0,
        omega (arith, insert_turns-added 0 upload.turns start db.turns),
        insert_turns-IsStored 0 upload.turns start db.turns,
      )
