-- ===== src/Artifacts/Crossing/Laws.antt =====
-- What holds in every order of handlers and phases of syncs.
use newell_ai.Common.{
  ℕ, Text, Option, none, some, List, [], ◌∷◌, ◌++◌, ◌≡◌, refl, All, Option-cases, Bool-cases, inl,
  inr, subst,
}
use newell_ai.Artifacts.Types.{ArtifactDb, ArtifactQueueEnvelope}
use newell_ai.Artifacts.Queue.{has_bytes}
use newell_ai.Artifacts.Sound.{IsTransferable, IsSound}
use newell_ai.Artifacts.Sound.Respond.{
  patch_envelope-IsSound, retry_or_dead-IsSound, auth_refused-IsSound,
}
use newell_ai.Artifacts.Sound.Sync.{select_due_artifact-All, finish_content-IsSound}
use newell_ai.Artifacts.Sync.Respond.{auth_refused}
use newell_ai.Artifacts.Sync.Once.{
  ArtifactSyncConfig, ArtifactFetchResult, responded, thrown, AcceptBody, parsed, unreadable,
  wait_for_bytes,
}
use newell_ai.Artifacts.System.{Steps-IsSound}
use newell_ai.Artifacts.Crossing.{
  Await, awaits_metadata, awaits_content, item_of, Phase, any_fetch, alone, unread, begin_content,
  begin_transfer, note_id, answered, begin_selected, Transfers, entered, Run, at_rest, handle,
  begin, answer,
}

abbrev no_config : ArtifactSyncConfig
no_config = record { base_url = []; token = [] }

abbrev IsFit : Await → Type 0
IsFit w = IsTransferable (item_of w)

abbrev IsFitNext : Option Await → Type 0
IsFitNext none = Unit
IsFitNext (some w) = IsFit w

abbrev IsSoundPhase : Phase → Type 0
IsSoundPhase p = IsSound p.db × IsFitNext p.next

module _ (now clock : ℕ) where
  begin_content-IsSoundPhase :
      (item : ArtifactQueueEnvelope) (id : Option Text) (db : ArtifactDb)
      → IsTransferable item
      → IsSound db
      → IsSoundPhase (begin_content now clock item id db)
  unfolding begin_content wait_for_bytes
  begin_content-IsSoundPhase item id db fit h = elim (Bool-cases (has_bytes item.bytes)) [
    | inl there ↦ rw (there, begin_content) (h, fit)
    | inr missing ↦
        rw (missing, begin_content)
          (patch_envelope-IsSound db h item.queue_id _ (λ e p. (fit.0, refl)), tt)
  ]

  begin_transfer-IsSoundPhase :
      (item : ArtifactQueueEnvelope) (db : ArtifactDb)
      → IsTransferable item
      → IsSound db
      → IsSoundPhase (begin_transfer now clock item db)
  unfolding begin_transfer
  begin_transfer-IsSoundPhase item db fit h = elim (Option-cases (item.artifact_id)) [
    | inl unknown ↦ rw (unknown, begin_transfer) (h, fit)
    | inr (id, known) ↦
        rw (known, begin_transfer) (begin_content-IsSoundPhase item (some id) db fit h)
  ]

  begin_selected-IsSoundPhase :
      (o : Option ArtifactQueueEnvelope) (db : ArtifactDb)
      → ((e : ArtifactQueueEnvelope) → o ≡ some e → IsTransferable e)
      → IsSound db
      → IsSoundPhase (begin_selected now clock o db)
  begin_selected-IsSoundPhase none db fit h = (h, tt)
  begin_selected-IsSoundPhase (some item) db fit h =
      begin_transfer-IsSoundPhase item db (fit item refl) h

  note_id-IsSoundPhase :
      (item : ArtifactQueueEnvelope) (body : AcceptBody) (db : ArtifactDb)
      → IsTransferable item
      → IsSound db
      → IsSoundPhase (note_id now clock item body db)
  unfolding note_id
  note_id-IsSoundPhase item (unreadable e) db fit h =
      (retry_or_dead-IsSound db h clock item _ now, tt)
  note_id-IsSoundPhase item (parsed id) db fit h =
      begin_content-IsSoundPhase item id _ fit
        (patch_envelope-IsSound db h item.queue_id _ (λ e p. p))

  answered-IsSoundPhase :
      (w : Await) (result : ArtifactFetchResult) (db : ArtifactDb)
      → IsFit w
      → IsSound db
      → IsSoundPhase (answered now clock w result db)
  unfolding answered
  answered-IsSoundPhase (awaits_metadata item) (thrown e) db fit h =
      (retry_or_dead-IsSound db h clock item _ now, tt)
  answered-IsSoundPhase (awaits_metadata item) (responded status body) db fit h =
      elim (Option-cases (auth_refused clock item status now db)) [
        | inl ok ↦ rw (ok, answered) (note_id-IsSoundPhase item body db fit h)
        | inr (r, early) ↦
            rw (early, answered) (auth_refused-IsSound db h clock item status now r early, tt)
      ]
  answered-IsSoundPhase (awaits_content item id) result db fit h = (
    finish_content-IsSound (any_fetch unread) now clock alone (λ r d k. k) no_config item result db
        h,
    tt,
  )

entered-IsSound :
    (p : Phase) (awaiting : List Await)
    → IsSoundPhase p
    → All IsFit awaiting
    → IsSound (entered p awaiting).db × All IsFit (entered p awaiting).awaiting
entered-IsSound p awaiting (h, fit) k = from p.next fit
  where
    from :
        (o : Option Await)
        → IsFitNext o
        → IsSound p.db × All IsFit (elim o [ none ↦ awaiting | some w ↦ w ∷ awaiting ])
    from none f = (h, k)
    from (some w) f = (h, (f, k))

All-without :
    (before after : List Await) (w : Await)
    → All IsFit (before ++ w ∷ after)
    → IsFit w × All IsFit (before ++ after)
All-without [] after w (f, fs) = (f, fs)
All-without (v ∷ before) after w (f, fs) =
    let (g, gs) = All-without before after w fs in (g, (f, gs))

Run-IsFit :
    {a : ArtifactDb} {s : Transfers} → Run a s → IsSound a → IsSound s.db × All IsFit s.awaiting
Run-IsFit at_rest h = (h, tt)
Run-IsFit (handle r steps) h = let (sound, fit) = Run-IsFit r h in (Steps-IsSound steps sound, fit)
Run-IsFit (begin {s} r now clock) h =
    let (sound, fit) = Run-IsFit r h in
    let (chosen, kept) =
      select_due_artifact-All IsTransferable now s.db.queue (λ e p. p) (λ e p. p) sound.waiting in
    entered-IsSound _ s.awaiting
      (begin_selected-IsSoundPhase now clock _ _ chosen
        (record { waiting = kept; emptied = sound.emptied }))
      fit
Run-IsFit (answer {s} r before after w e result now clock) h =
    let (sound, fit) = Run-IsFit r h in
    let (here, others) = All-without before after w (subst (All IsFit) e fit) in
    entered-IsSound _ (before ++ after) (answered-IsSoundPhase now clock w result s.db here sound)
      others

-- Whatever handlers and phases of syncs run, in whatever order and with however many syncs under
-- way: every record that waits in the artifact queue has used fewer than five attempts and holds
-- the bytes that its byte status promises, and no dead letter holds bytes, if that was so before.
pub Run-IsSound : {a : ArtifactDb} {s : Transfers} → Run a s → IsSound a → IsSound s.db
Run-IsSound r h = (Run-IsFit r h).0
