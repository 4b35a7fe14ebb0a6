-- ===== src/Shell/Background/Laws.antt =====
-- The message handler refines the step relations of the two queues, and changes nothing for a
-- message that its gates refuse.
use newell_ai.Common.{
  ℕ, List, Text, Option, none, some, Bool, true, false, not, ◌≡◌, refl, if◌then◌else◌,
}
use newell_ai.Queue.Types.{EnqueueInput}
use newell_ai.Queue.Enqueue.{enqueue, lookup_client_turn_id}
use newell_ai.Queue.System.{System, Step, enqueue_turn, requeue, clear, force, IsFresh, Reach, next}
use newell_ai.Artifacts.Types.{ArtifactDb, ArtifactEnqueueResult, already_known, accepted}
use newell_ai.Artifacts.Queue.{enqueue_artifact}
use newell_ai.Artifacts.System.{Steps, none_yet, enqueued, attach, dismiss}
use newell_ai.Artifacts.System as Art
use newell_ai.Capture.Messaging.{
  Gate, passed, blocked, SenderLike, Location, CaptureEnqueueMessage, authorize_capture_enqueue,
  authorize_legacy_enqueue,
}
use newell_ai.Capture.Messaging.Artifact.{ArtifactEnqueueMessage, authorize_artifact_enqueue}
use newell_ai.Shell.Config.{ChromeStorage, load_capture_settings}
use newell_ai.Shell.Background.{
  Extension, Message, capture_enqueue, artifact_enqueue, enqueue_input, read_status,
  read_capture_settings, clear_letters, clear_artifact_letters, dismiss_conflict, config_changed,
  sync_now, Handled, Chance, refuse, gated, accept_turn, accept_artifact, accept_input,
  artifact_accepted, link_artifact, attached, recover_bytes, artifact_input, turn_input,
  handle_message,
}

-- Any number of steps of the turn queue.
pub data Moves (s : System) : System → Type 0 where
  stay : Moves s s
  move : {t u : System} → Moves s t → Step t u → Moves s u

pub Moves-Reach : {s t : System} → Moves s t → Reach s → Reach t
Moves-Reach stay r = r
Moves-Reach (move m step) r = next (Moves-Reach m r) step

gated-cases :
    {A : Type 0} (g : Gate A) (k : A → Extension → Handled) (x : Extension) (P : Handled → Type 0)
    → ((reason : Text) → P (refuse reason x))
    → ((a : A) → P (k a x))
    → P (gated g k x)
gated-cases (passed a) k x P h j = j a
gated-cases (blocked reason) k x P h j = h reason

if-cases : {A : Type 0} (b : Bool) (x y : A) (P : A → Type 0) → P x → P y → P (if b then x else y)
if-cases true x y P h k = h
if-cases false x y P h k = k

-- The queue after the handler is that of a reachable state of its step relation, and the artifacts
-- after it are behind steps of theirs.
abbrev pub Refines : System → ArtifactDb → Handled → Type 0
Refines s artifacts h = ((t : System) × Moves s t × (t.db ≡ h.queue)) × Steps artifacts h.artifacts

attached-Steps :
    {a : ArtifactDb} (m : ArtifactEnqueueMessage) (now : ℕ) (id : Text) (db : ArtifactDb)
    (o : Option (List ℕ))
    → Steps a db
    → Steps a (attached m now id db o)
attached-Steps m now id db none h = h
attached-Steps m now id db (some bytes) h =
    attach h m.conversation_id id bytes m.declared_sha256 m.declared_byte_size now

module _ (c : Chance) (s : System) (artifacts : ArtifactDb) (storage : ChromeStorage)
    (fresh : IsFresh c.queue_uuid s.accepted) where
  abbrev extension : Extension
  extension = record { queue = s.db; artifacts = artifacts; storage = storage }

  abbrev unmoved : (t : System) × Moves s t × (t.db ≡ s.db)
  unmoved = (s, stay, refl)

  enqueued_input :
      (input : EnqueueInput)
      → (t : System) × Moves s t × (t.db ≡ (enqueue s.db input c.turn_uuid c.queue_uuid c.now).1)
  enqueued_input input =
      (_, move stay (enqueue_turn input c.turn_uuid c.queue_uuid c.now fresh), refl)

  accept_turn-Refines :
      (m : CaptureEnqueueMessage) → Refines s artifacts (accept_turn c m extension)
  unfolding accept_turn
  accept_turn-Refines m =
      if-cases (not (load_capture_settings storage).enabled) _ _ (Refines s artifacts)
        (unmoved, none_yet)
        (enqueued_input (turn_input m (load_capture_settings storage).user_id), none_yet)

  recover_bytes-Steps :
      (m : ArtifactEnqueueMessage) (now : ℕ) (r : ArtifactEnqueueResult × ArtifactDb)
      → Steps artifacts r.1
      → Steps artifacts (recover_bytes m now r)
  unfolding recover_bytes
  recover_bytes-Steps m now (accepted id, db) h = h
  recover_bytes-Steps m now (already_known id, db) h = attached-Steps m now id db m.bytes h

  artifact_accepted-Refines :
      (m : ArtifactEnqueueMessage) (o : Option (ArtifactEnqueueResult × ArtifactDb))
      (user turn : Text)
      → enqueue_artifact artifacts (artifact_input m user turn) c.queue_uuid c.now ≡ o
      → Refines s artifacts (artifact_accepted c m extension o)
  artifact_accepted-Refines m none user turn e = (unmoved, none_yet)
  artifact_accepted-Refines m (some r) user turn e = (
    unmoved,
    recover_bytes-Steps m c.now r
        (enqueued none_yet (artifact_input m user turn) c.queue_uuid c.now r e),
  )

  link_artifact-Refines :
      (m : ArtifactEnqueueMessage) (user : Text) (o : Option Text)
      → Refines s artifacts (link_artifact c m user extension o)
  link_artifact-Refines m user none = (unmoved, none_yet)
  link_artifact-Refines m user (some turn) =
      artifact_accepted-Refines m
        (enqueue_artifact artifacts (artifact_input m user turn) c.queue_uuid c.now) user turn refl

  accept_artifact-Refines :
      (m : ArtifactEnqueueMessage) → Refines s artifacts (accept_artifact c m extension)
  unfolding accept_artifact
  accept_artifact-Refines m =
      if-cases (not (load_capture_settings storage).enabled) _ _ (Refines s artifacts)
        (unmoved, none_yet)
        (link_artifact-Refines m (load_capture_settings storage).user_id
          (lookup_client_turn_id s.db m.conversation_id m.client_turn_id))

  -- Handling any message, from any sender, takes the turn queue and the artifact queue through
  -- steps of their step relations, if the random queue id is new.
  pub handle_message-Refines :
      (parse_url : Text → Option Location) (extension_id : Text) (sender : SenderLike) (m : Message)
      → Refines s artifacts (handle_message parse_url extension_id c sender m extension)
  unfolding handle_message
  handle_message-Refines parse_url extension_id sender (capture_enqueue raw) =
      gated-cases (authorize_capture_enqueue parse_url raw sender extension_id) (accept_turn c)
        extension (Refines s artifacts) (λ reason. (unmoved, none_yet)) accept_turn-Refines
  handle_message-Refines parse_url extension_id sender (artifact_enqueue raw) =
      gated-cases (authorize_artifact_enqueue parse_url raw sender extension_id) (accept_artifact c)
        extension (Refines s artifacts) (λ reason. (unmoved, none_yet)) accept_artifact-Refines
  handle_message-Refines parse_url extension_id sender (enqueue_input input) =
      gated-cases (authorize_legacy_enqueue parse_url sender extension_id)
        (λ ok. accept_input c input) extension (Refines s artifacts) (λ reason. (unmoved, none_yet))
        (λ ok. unfold accept_input in (enqueued_input input, none_yet))
  handle_message-Refines parse_url extension_id sender read_status = (unmoved, none_yet)
  handle_message-Refines parse_url extension_id sender read_capture_settings = (unmoved, none_yet)
  handle_message-Refines parse_url extension_id sender clear_letters =
      ((_, move stay clear, refl), none_yet)
  handle_message-Refines parse_url extension_id sender clear_artifact_letters =
      (unmoved, Art.clear none_yet)
  handle_message-Refines parse_url extension_id sender (dismiss_conflict id) =
      (unmoved, dismiss none_yet id)
  handle_message-Refines parse_url extension_id sender config_changed =
      ((_, move stay requeue, refl), Art.requeue none_yet c.now)
  handle_message-Refines parse_url extension_id sender sync_now =
      ((_, move stay force, refl), Art.force none_yet c.now)
