-- ===== src/Shell/Background/Handling/Laws.antt =====
-- The handler of background.ts does what its messages allow.
use newell_ai.Common.{ℕ, List, Text, Option, none, some, true, ◌≡◌, refl, inl, inr, Bool-cases}
use newell_ai.Queue.Types.{EnqueueInput}
use newell_ai.Queue.Enqueue.{lookup_client_turn_id}
use newell_ai.Queue.System.{System, IsFresh}
use newell_ai.Artifacts.Types.{ArtifactDb, ArtifactEnqueueResult, already_known, accepted}
use newell_ai.Artifacts.Queue.{enqueue_artifact}
use newell_ai.Value.{Value}
use newell_ai.Capture.Messaging.{
  Gate, passed, blocked, SenderLike, Location, CaptureEnqueueMessage, authorize_capture_enqueue,
  authorize_legacy_enqueue,
}
use newell_ai.Capture.Messaging.Artifact.{ArtifactEnqueueMessage, authorize_artifact_enqueue}
use newell_ai.Capture.Messaging.Laws.{
  authorize_capture_enqueue-IsTrusted, authorize_artifact_enqueue-IsTrusted,
}
use newell_ai.Shell.Config.{ChromeStorage}
use newell_ai.Shell.Background.{
  Extension, Message, capture_enqueue, artifact_enqueue, enqueue_input, read_status,
  read_capture_settings, clear_letters, clear_artifact_letters, dismiss_conflict, config_changed,
  sync_now, Handled, Chance, gated, accept_turn, accept_artifact, accept_input, recover_bytes,
  attached, artifact_accepted, link_artifact, artifact_input, handle_message,
}
use newell_ai.Shell.Background.Laws.{Refines, handle_message-Refines}
use newell_ai.Shell.Background.Handling.{
  IsRefused, IsTaken, is_on, user_of, Recovery, new_one, without_bytes, with_bytes, Handling,
  turn_blocked, turn_while_off, turn_taken, image_blocked, image_while_off, image_of_no_turn,
  image_not_queued, image_taken, input_blocked, input_taken, status_read, settings_read,
  letters_cleared, artifact_letters_cleared, conflict_dismissed, both_requeued, both_forced,
}

module _ (parse_url : Text → Option Location) (id : Text) (c : Chance) (sender : SenderLike)
    (x : Extension) where
  accept_turn-Handling :
      (raw : Value) (m : CaptureEnqueueMessage)
      → authorize_capture_enqueue parse_url raw sender id ≡ passed m
      → Handling parse_url id c sender x (capture_enqueue raw) (accept_turn c m x)
  unfolding accept_turn
  accept_turn-Handling raw m e = elim (Bool-cases (is_on x)) [
    | inr off ↦ rw off (turn_while_off raw _ off ((_, refl), refl, refl, refl))
    | inl on ↦
        let trusted = (authorize_capture_enqueue-IsTrusted parse_url raw sender id m e).0 in
        rw on (turn_taken raw _ m e trusted on (refl, refl, refl, refl))
  ]

  attached-Recovery :
      (m : ArtifactEnqueueMessage) (now : ℕ) (known : Text) (db : ArtifactDb) (o : Option (List ℕ))
      → m.bytes ≡ o
      → Recovery m now (already_known known, db) (attached m now known db o)
  attached-Recovery m now known db none e = without_bytes known db e
  attached-Recovery m now known db (some bytes) e = with_bytes known db bytes e

  recover_bytes-Recovery :
      (m : ArtifactEnqueueMessage) (now : ℕ) (r : ArtifactEnqueueResult × ArtifactDb)
      → Recovery m now r (recover_bytes m now r)
  unfolding recover_bytes
  recover_bytes-Recovery m now (accepted known, db) = new_one known db
  recover_bytes-Recovery m now (already_known known, db) =
      attached-Recovery m now known db m.bytes refl

  module _ (raw : Value) (m : ArtifactEnqueueMessage)
      (e : authorize_artifact_enqueue parse_url raw sender id ≡ passed m)
      (on : is_on x ≡ true) where
    artifact_accepted-Handling :
        (turn : Text) (o : Option (ArtifactEnqueueResult × ArtifactDb))
        → lookup_client_turn_id x.queue m.conversation_id m.client_turn_id ≡ some turn
        → enqueue_artifact x.artifacts (artifact_input m (user_of x) turn) c.queue_uuid c.now ≡ o
        → Handling parse_url id c sender x (artifact_enqueue raw) (artifact_accepted c m x o)
    artifact_accepted-Handling turn none found result =
        image_not_queued raw _ m turn result ((_, refl), refl, refl, refl)
    artifact_accepted-Handling turn (some r) found result =
        let trusted = (authorize_artifact_enqueue-IsTrusted parse_url raw sender id m e).0 in
        image_taken raw _ m turn r e trusted on found result refl refl
          (recover_bytes-Recovery m c.now r) refl

    link_artifact-Handling :
        (o : Option Text)
        → lookup_client_turn_id x.queue m.conversation_id m.client_turn_id ≡ o
        → Handling parse_url id c sender x
            (artifact_enqueue raw)
            (link_artifact c m (user_of x) x o)
    link_artifact-Handling none found = image_of_no_turn raw _ m found ((_, refl), refl, refl, refl)
    link_artifact-Handling (some turn) found = artifact_accepted-Handling turn _ found refl

  accept_artifact-Handling :
      (raw : Value) (m : ArtifactEnqueueMessage)
      → authorize_artifact_enqueue parse_url raw sender id ≡ passed m
      → Handling parse_url id c sender x (artifact_enqueue raw) (accept_artifact c m x)
  unfolding accept_artifact
  accept_artifact-Handling raw m e = elim (Bool-cases (is_on x)) [
    | inr off ↦ rw off (image_while_off raw _ off ((_, refl), refl, refl, refl))
    | inl on ↦ rw on (link_artifact-Handling raw m e on _ refl)
  ]

  gated-Handling :
      {A : Type 0} (g : Gate A) (k : A → Extension → Handled) (P : Handled → Type 0)
      → ((reason : Text) (h : Handled) → g ≡ blocked reason → IsRefused x h → P h)
      → ((a : A) → g ≡ passed a → P (k a x))
      → P (gated g k x)
  gated-Handling (passed a) k P h j = j a refl
  gated-Handling (blocked reason) k P h j = h reason _ refl ((_, refl), refl, refl, refl)

  accept_input-IsTaken : (input : EnqueueInput) → IsTaken c input x (accept_input c input x)
  unfolding accept_input
  accept_input-IsTaken input = (refl, refl, refl, refl)

  message-Handling :
      (m : Message) → Handling parse_url id c sender x m (handle_message parse_url id c sender m x)
  unfolding handle_message
  message-Handling (capture_enqueue raw) =
      gated-Handling (authorize_capture_enqueue parse_url raw sender id) (accept_turn c)
        (Handling parse_url id c sender x (capture_enqueue raw))
        (λ reason h e r. turn_blocked raw h reason e r) (accept_turn-Handling raw)
  message-Handling (artifact_enqueue raw) =
      gated-Handling (authorize_artifact_enqueue parse_url raw sender id) (accept_artifact c)
        (Handling parse_url id c sender x (artifact_enqueue raw))
        (λ reason h e r. image_blocked raw h reason e r) (accept_artifact-Handling raw)
  message-Handling (enqueue_input input) =
      gated-Handling (authorize_legacy_enqueue parse_url sender id) (λ ok. accept_input c input)
        (Handling parse_url id c sender x (enqueue_input input))
        (λ reason h e r. input_blocked input h reason e r)
        (λ ok e. input_taken input _ ok e (accept_input-IsTaken input))
  message-Handling read_status = status_read _ refl refl
  message-Handling read_capture_settings = settings_read _ refl refl
  message-Handling clear_letters = letters_cleared _ refl refl refl
  message-Handling clear_artifact_letters = artifact_letters_cleared _ refl refl refl
  message-Handling (dismiss_conflict artifact) = conflict_dismissed artifact _ refl refl refl
  message-Handling config_changed = both_requeued _ refl refl refl refl
  message-Handling sync_now = both_forced _ refl refl refl refl

-- A message does what its kind allows and no more. A turn or an image is refused with nothing
-- changed, or it passed its gate from a page of ChatGPT with capture on and is enqueued; only its
-- own message clears letters, dismisses a conflict, requeues or forces. With a new random queue id
-- these are steps of the step relations of the two queues.
pub handle_message-Handling :
    (c : Chance) (s : System) (artifacts : ArtifactDb) (storage : ChromeStorage)
    → IsFresh c.queue_uuid s.accepted
    → (parse_url : Text → Option Location) (id : Text) (sender : SenderLike) (m : Message)
    → let x : Extension = record { queue = s.db; artifacts = artifacts; storage = storage } in
      Handling parse_url id c sender x m (handle_message parse_url id c sender m x)
      × Refines s artifacts (handle_message parse_url id c sender m x)
handle_message-Handling c s artifacts storage fresh parse_url id sender m = (
  message-Handling parse_url id c sender _ m,
  handle_message-Refines c s artifacts storage fresh parse_url id sender m,
)
