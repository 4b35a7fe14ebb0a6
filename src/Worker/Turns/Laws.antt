-- ===== src/Worker/Turns/Laws.antt =====
-- Ingest is idempotent and loses nothing.
use newell_ai.Common.{
  ℕ, suc, ◌+◌, Text, some, Bool, true, false, List, [], ◌∷◌, length, ◌≡◌, refl, ap, ◌∙◌, arith, All,
  Option-cases, inl, inr,
}
use newell_ai.Common.Keys.{KeyOrder, text_order, pair_order, cmp_refl}
use newell_ai.Idb.{get}
use newell_ai.Idb.Laws.{get-put}
use newell_ai.Idb.Members.{holds}
use newell_ai.Contracts.{TurnPayload, UploadRequest, ConversationMetadata}
use newell_ai.Worker.Db.{
  TurnRow, WorkerDb, turn_key, insert_new, user_key, conversation_key, UserRow, ConversationRow,
}
use newell_ai.Worker.Turns.{
  PersistResult, insert_conversation, turn_row, count_change, insert_turns, persist,
}

module _ {K A : Type 0} ⦃o : KeyOrder K⦄ (key : A → K) where
  insert_new-known :
      (row : A) (t : List A) → holds key (key row) t ≡ true → insert_new key row t ≡ (false, t)
  unfolding insert_new
  insert_new-known row t h = ground arith

  -- The key is there afterwards.
  pub insert_new-holds :
      (row : A) (t : List A) → holds key (key row) (insert_new key row t).1 ≡ true
  unfolding insert_new
  insert_new-holds row t = ground (arith, get-put key (key row) row t, cmp_refl (key row))

  -- A row that is there stays as it is.
  pub insert_new-keeps :
      (row : A) (t : List A) (k : K) (old : A)
      → get key k t ≡ some old
      → get key k (insert_new key row t).1 ≡ some old
  unfolding insert_new
  insert_new-keeps row t k old h = ground (arith, get-put key k row t, o.cmp_eq k (key row))

module _ (upload : UploadRequest) (now : Text) (uuids : ℕ → Text) where
  -- The key of a turn of the upload.
  abbrev pub payload_key : TurnPayload → Text × Text
  payload_key turn = (upload.conversation.conversation_id, turn.client_turn_id)

  pub insert_turns-keeps :
      (n : ℕ) (turns : List TurnPayload) (r : PersistResult) (t : List TurnRow) (k : Text × Text)
      (old : TurnRow)
      → get turn_key k t ≡ some old
      → get turn_key k (insert_turns upload now uuids n turns r t).1 ≡ some old
  unfolding insert_turns
  insert_turns-keeps n [] r t k old h = h
  insert_turns-keeps n (turn ∷ turns) r t k old h =
      insert_turns-keeps (suc n) turns _ _ k old
        (insert_new-keeps turn_key (turn_row upload now (uuids n) turn) t k old h)

  pub insert_turns-total :
      (n : ℕ) (turns : List TurnPayload) (r : PersistResult) (t : List TurnRow)
      → let (r', t') = insert_turns upload now uuids n turns r t in
        r'.accepted + r'.duplicate ≡ r.accepted + r.duplicate + length turns
  unfolding insert_turns
  insert_turns-total n [] r t = omega arith
  insert_turns-total n (turn ∷ turns) r t =
      let (inserted, t') = insert_new turn_key (turn_row upload now (uuids n) turn) t in
      let ih = insert_turns-total (suc n) turns (count_change inserted r) t' in
      ih ∙ counted inserted r (length turns)
    where
      counted :
          (b : Bool) (r : PersistResult) (m : ℕ)
          → (count_change b r).accepted + (count_change b r).duplicate + m
            ≡ r.accepted + r.duplicate + suc m
      counted true r m = omega arith
      counted false r m = omega arith

  insert_turns-still :
      (n : ℕ) (turns : List TurnPayload) (r : PersistResult) (t : List TurnRow) (k : Text × Text)
      → holds turn_key k t ≡ true
      → holds turn_key k (insert_turns upload now uuids n turns r t).1 ≡ true
  insert_turns-still n turns r t k h = elim (Option-cases (get turn_key k t)) [
    | inl absent ↦ ground (arith, absent)
    | inr (old, found) ↦ rw (insert_turns-keeps n turns r t k old found) refl
  ]

  insert_turns-holds :
      (n : ℕ) (turns : List TurnPayload) (r : PersistResult) (t : List TurnRow)
      → All
          (λ turn.
            holds turn_key (payload_key turn) (insert_turns upload now uuids n turns r t).1 ≡ true)
          turns
  unfolding insert_turns turn_row
  insert_turns-holds n [] r t = tt
  insert_turns-holds n (turn ∷ turns) r t =
      let row = turn_row upload now (uuids n) turn in
      let (inserted, t') = insert_new turn_key row t in
      (
        insert_turns-still (suc n) turns (count_change inserted r) t' (payload_key turn)
            (insert_new-holds turn_key row t),
        insert_turns-holds (suc n) turns (count_change inserted r) t',
      )

  insert_turns-known :
      (n : ℕ) (turns : List TurnPayload) (r : PersistResult) (t : List TurnRow)
      → All (λ turn. holds turn_key (payload_key turn) t ≡ true) turns
      → insert_turns upload now uuids n turns r t
        ≡ (record r { duplicate = r.duplicate + length turns }, t)
  unfolding insert_turns turn_row
  insert_turns-known n [] r t h = ap (λ d. (record r { duplicate = d }, t)) (omega arith)
  insert_turns-known n (turn ∷ turns) r t (here, rest) =
      let row = turn_row upload now (uuids n) turn in
      rw (insert_new-known turn_key row t here) (
        insert_turns-known (suc n) turns (record r { duplicate = r.duplicate + 1 }) t rest
        ∙ ap (λ d. (record r { duplicate = d }, t)) (omega arith))

insert_conversation_again :
    (c : ConversationMetadata) (now now' : Text) (db : WorkerDb) (t : List TurnRow)
    → let after = record (insert_conversation c now db) { turns = t } in
      insert_conversation c now' after ≡ after
unfolding insert_conversation
insert_conversation_again c now now' db t =
    let user : UserRow = record { user_id = c.user_id; created_at = now } in
    let row : Text → ConversationRow = λ at. record {
      conversation_id = c.conversation_id;
      user_id = c.user_id;
      title = c.title;
      source_model = c.source_model;
      started_at = c.started_at;
      created_at = at;
    } in
    rw
      (
        insert_new-known user_key (record { user_id = c.user_id; created_at = now' }) _
            (insert_new-holds user_key user db.users),
        insert_new-known conversation_key (row now') _
            (insert_new-holds conversation_key (row now) db.conversations),
      )
      refl

-- An upload whose rows are all there.
persist_known :
    (db : WorkerDb) (upload : UploadRequest) (now : Text) (uuids : ℕ → Text)
    → insert_conversation upload.conversation now db ≡ db
    → All (λ turn. holds turn_key (payload_key upload now uuids turn) db.turns ≡ true) upload.turns
    → persist db upload now uuids ≡ (record { accepted = 0; duplicate = length upload.turns }, db)
unfolding persist
persist_known db upload now uuids same h =
    let start : PersistResult = record { accepted = 0; duplicate = 0 } in
    let out : WorkerDb → PersistResult × WorkerDb = λ d.
      let (r, turns) = insert_turns upload now uuids 0 upload.turns start d.turns in
      (r, record d { turns = turns }) in
    ap out same
    ∙ ap (λ (x : PersistResult × List TurnRow). (x.0, record db { turns = x.1 }))
        (insert_turns-known upload now uuids 0 upload.turns start db.turns h)
    ∙ ap (λ n. (record { accepted = 0; duplicate = n }, db)) (omega arith)

module _ (db : WorkerDb) (upload : UploadRequest) (now : Text) (uuids : ℕ → Text) where
  -- An upload counts each of its turns once, as accepted or as a duplicate, and afterwards every
  -- turn of the upload is stored.
  pub persist-stores :
      let (r, after) = persist db upload now uuids in
      (r.accepted + r.duplicate ≡ length upload.turns)
      × All
          (λ turn. holds turn_key (payload_key upload now uuids turn) after.turns ≡ true)
          upload.turns
  unfolding persist
  persist-stores = (
    insert_turns-total upload now uuids 0 upload.turns _ _ ∙ (omega arith),
    insert_turns-holds upload now uuids 0 upload.turns _ _,
  )

  -- A turn that is stored is never changed by a later upload: the first write wins.
  pub persist-keeps :
      (k : Text × Text) (old : TurnRow)
      → get turn_key k db.turns ≡ some old
      → get turn_key k (persist db upload now uuids).1.turns ≡ some old
  unfolding persist insert_conversation
  persist-keeps k old h = insert_turns-keeps upload now uuids 0 upload.turns _ _ k old h

  -- To send an upload again, at any time, changes nothing and counts all its turns as duplicates.
  pub persist_again :
      (now' : Text) (uuids' : ℕ → Text)
      → let after = (persist db upload now uuids).1 in
        persist after upload now' uuids'
        ≡ (record { accepted = 0; duplicate = length upload.turns }, after)
  unfolding persist
  persist_again now' uuids' =
      let db' = insert_conversation upload.conversation now db in
      let start : PersistResult = record { accepted = 0; duplicate = 0 } in
      persist_known _ upload now' uuids'
        (insert_conversation_again upload.conversation now now' db _)
        (insert_turns-holds upload now uuids 0 upload.turns start db'.turns)
