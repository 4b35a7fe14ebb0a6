-- ===== src/Shell/Background.antt =====
-- The message handler and the badge of apps/extension/src/background.ts. A handler's transactions
-- are run here without the sync that follows them: what is to follow is part of the result, and
-- the step relations of the two queues interleave it. The random ids, the time and the URL parser
-- are arguments; `chrome.runtime.id` is `extension_id`.
pub mod Laws
pub mod Off
pub mod Handling
mod Tests
use newell_ai.Common.{
  ℕ, ◌+◌, Text, codes, decimal, text_eq, Option, none, some, Bool, true, false, not, ◌||◌, List, [],
  ◌∷◌, ltb, ◌==◌, if◌then◌else◌,
}
use newell_ai.Contracts.{
  CaptureMetadata, ImageProvenance, uploaded, generated, screenshot, edited_derived,
}
use newell_ai.Queue.Types.{EnqueueInput, EnqueueResult, QueueStatus}
use newell_ai.Queue.Db.{QueueDb}
use newell_ai.Queue.Enqueue.{enqueue, lookup_client_turn_id}
use newell_ai.Queue.Operations.{
  clear_dead_letters, requeue_auth_blocked, force_pending_due, get_status,
}
use newell_ai.Artifacts.Types.{
  ArtifactDb, ArtifactEnqueueInput, ArtifactEnqueueResult, already_known, accepted,
  ArtifactQueueStatus, ArtifactConflictNotice,
}
use newell_ai.Artifacts.Queue.{
  enqueue_artifact, attach_artifact_bytes, force_artifact_pending_due,
  requeue_artifact_auth_blocked, dismiss_artifact_conflict, clear_artifact_dead_letters,
  get_artifact_status, list_open_artifact_conflicts,
}
use newell_ai.Value.{Value}
use newell_ai.Capture.Messaging.{
  Gate, passed, blocked, SenderLike, Location, CaptureEnqueueMessage, authorize_capture_enqueue,
  authorize_legacy_enqueue,
}
use newell_ai.Capture.Messaging.Artifact.{ArtifactEnqueueMessage, authorize_artifact_enqueue}
use newell_ai.Shell.Config.{ChromeStorage, CaptureSettings, load_capture_settings}

-- The two databases and the storage of the settings.
pub record Extension : Type 0 where
  pub queue : QueueDb
  pub artifacts : ArtifactDb
  pub storage : ChromeStorage

-- A message by its type. The gates read the whole message of the first two.
pub data Message : Type 0 where
  capture_enqueue artifact_enqueue : (raw : Value) → Message
  enqueue_input : EnqueueInput → Message
  read_status read_capture_settings clear_letters clear_artifact_letters : Message
  dismiss_conflict : (client_artifact_id : Text) → Message
  config_changed sync_now : Message

pub data Reply : Type 0 where
  refused_with : (error : Text) → Reply
  turn_result : EnqueueResult → Reply
  artifact_result : ArtifactEnqueueResult → Reply
  status_result :
      QueueStatus → ArtifactQueueStatus → List ArtifactConflictNotice → CaptureSettings → Reply
  settings_result : CaptureSettings → Reply
  cleared : ℕ → Reply
  dismissed : Bool → Reply
  requeued : ℕ → ℕ → Reply
  -- The status that is read when the sync has ended.
  synced : Reply

-- What the handler does behind its transactions: `updateBadge`, or `syncAndRefresh`.
pub data FollowUp : Type 0 where
  no_follow_up refresh_badge sync_and_refresh : FollowUp

pub record Handled : Type 0 where
  pub reply : Reply
  pub queue : QueueDb
  pub artifacts : ArtifactDb
  pub follow_up : FollowUp

abbrev pub refuse : Text → Extension → Handled
refuse error x = record {
  reply = refused_with error;
  queue = x.queue;
  artifacts = x.artifacts;
  follow_up = no_follow_up;
}

abbrev pub answer : Reply → Extension → Handled
answer reply x = record {
  reply = reply;
  queue = x.queue;
  artifacts = x.artifacts;
  follow_up = no_follow_up;
}

abbrev pub chatgpt_capture : CaptureMetadata
chatgpt_capture = record {
  capture_client = codes "chrome-extension";
  capture_client_version = some (codes "0.1.0");
  surface = some (codes "chatgpt");
  captured_batch_id = none;
}

unfoldable pub turn_input : CaptureEnqueueMessage → Text → EnqueueInput
turn_input m user_id = record {
  conversation = record {
    conversation_id = m.conversation_id;
    user_id = user_id;
    title = none;
    source_model = none;
    started_at = none;
  };
  capture = chatgpt_capture;
  source_key = some m.source_key;
  turn = record {
    speaker = m.speaker;
    text = m.text;
    captured_at = m.captured_at;
    parent_client_turn_id = none;
    message_type = none;
    topic = none;
  };
}

unfoldable pub artifact_input : ArtifactEnqueueMessage → Text → Text → ArtifactEnqueueInput
artifact_input m user_id client_turn_id = record {
  conversation_id = m.conversation_id;
  user_id = user_id;
  client_turn_id = client_turn_id;
  source_key = m.source_key;
  direction = m.direction;
  mime_type = m.mime_type;
  declared_sha256 = some m.declared_sha256;
  declared_byte_size = some m.declared_byte_size;
  original_filename = m.original_filename;
  image_provenance = m.image_provenance;
  source_url = m.source_url;
  captured_at = m.captured_at;
  capture = chatgpt_capture;
  bytes = m.bytes;
}

abbrev pub attached : ArtifactEnqueueMessage → ℕ → Text → ArtifactDb → Option (List ℕ) → ArtifactDb
attached m now id db none = db
attached m now id db (some bytes) =
    (attach_artifact_bytes db m.conversation_id id bytes m.declared_sha256 m.declared_byte_size
      now).1

-- The recovery of bytes for an artifact that is known already.
unfoldable pub recover_bytes :
    ArtifactEnqueueMessage → ℕ → ArtifactEnqueueResult × ArtifactDb → ArtifactDb
unfolding attach_artifact_bytes
recover_bytes m now (accepted id, db) = db
recover_bytes m now (already_known id, db) = attached m now id db m.bytes

-- The arguments that the platform chooses.
pub record Chance : Type 0 where
  pub turn_uuid : Text
  pub queue_uuid : Text
  pub now : ℕ

-- `case CAPTURE_ENQUEUE_TYPE` behind the gate
unfoldable pub accept_turn : Chance → CaptureEnqueueMessage → Extension → Handled
unfolding turn_input enqueue load_capture_settings
accept_turn c m x =
    let settings = load_capture_settings x.storage in
    if not settings.enabled
    then refuse (codes "capture_disabled") x
    else let (result, db) =
        enqueue x.queue (turn_input m settings.user_id) c.turn_uuid c.queue_uuid c.now in
      record {
        reply = turn_result result;
        queue = db;
        artifacts = x.artifacts;
        follow_up = sync_and_refresh;
      }

abbrev pub artifact_accepted :
    Chance
    → ArtifactEnqueueMessage
    → Extension
    → Option (ArtifactEnqueueResult × ArtifactDb)
    → Handled
artifact_accepted c m x none = refuse (codes "Error") x
artifact_accepted c m x (some r) = record {
  reply = artifact_result r.0;
  queue = x.queue;
  artifacts = recover_bytes m c.now r;
  follow_up = sync_and_refresh;
}

abbrev pub link_artifact :
    Chance → ArtifactEnqueueMessage → Text → Extension → Option Text → Handled
link_artifact c m user_id x none = refuse (codes "turn_identity_unknown") x
link_artifact c m user_id x (some client_turn_id) =
    artifact_accepted c m x
      (enqueue_artifact x.artifacts (artifact_input m user_id client_turn_id) c.queue_uuid c.now)

-- `case ARTIFACT_ENQUEUE_TYPE` behind the gate
unfoldable pub accept_artifact : Chance → ArtifactEnqueueMessage → Extension → Handled
unfolding artifact_input enqueue_artifact recover_bytes lookup_client_turn_id load_capture_settings
accept_artifact c m x =
    let settings = load_capture_settings x.storage in
    if not settings.enabled
    then refuse (codes "capture_disabled") x
    else link_artifact c m settings.user_id x
        (lookup_client_turn_id x.queue m.conversation_id m.client_turn_id)

-- `case "enqueue"` behind the gate
unfoldable pub accept_input : Chance → EnqueueInput → Extension → Handled
unfolding enqueue
accept_input c input x =
    let (result, db) = enqueue x.queue input c.turn_uuid c.queue_uuid c.now in
    record {
      reply = turn_result result;
      queue = db;
      artifacts = x.artifacts;
      follow_up = sync_and_refresh;
    }

abbrev pub gated : {A : Type 0} → Gate A → (A → Extension → Handled) → Extension → Handled
gated (blocked reason) k x = refuse reason x
gated (passed a) k x = k a x

module _ (parse_url : Text → Option Location) (extension_id : Text) where
  -- The listener of `chrome.runtime.onMessage`
  unfoldable pub handle_message : Chance → SenderLike → Message → Extension → Handled
  unfolding authorize_capture_enqueue authorize_artifact_enqueue authorize_legacy_enqueue
      accept_turn accept_artifact accept_input clear_dead_letters clear_artifact_dead_letters
      dismiss_artifact_conflict requeue_auth_blocked requeue_artifact_auth_blocked force_pending_due
      force_artifact_pending_due get_status get_artifact_status list_open_artifact_conflicts
      load_capture_settings
  handle_message c sender (capture_enqueue raw) x =
      gated (authorize_capture_enqueue parse_url raw sender extension_id) (accept_turn c) x
  handle_message c sender (artifact_enqueue raw) x =
      gated (authorize_artifact_enqueue parse_url raw sender extension_id) (accept_artifact c) x
  handle_message c sender (enqueue_input input) x =
      gated (authorize_legacy_enqueue parse_url sender extension_id) (λ ok. accept_input c input) x
  handle_message c sender read_status x =
      answer
        (status_result (get_status x.queue c.now) (get_artifact_status x.artifacts c.now)
          (list_open_artifact_conflicts x.artifacts) (load_capture_settings x.storage))
        x
  handle_message c sender read_capture_settings x =
      answer (settings_result (load_capture_settings x.storage)) x
  handle_message c sender clear_letters x =
      let (n, db) = clear_dead_letters x.queue in
      record { reply = cleared n; queue = db; artifacts = x.artifacts; follow_up = refresh_badge }
  handle_message c sender clear_artifact_letters x =
      let (n, db) = clear_artifact_dead_letters x.artifacts in
      record { reply = cleared n; queue = x.queue; artifacts = db; follow_up = refresh_badge }
  handle_message c sender (dismiss_conflict id) x =
      let (found, db) = dismiss_artifact_conflict x.artifacts id in
      record { reply = dismissed found; queue = x.queue; artifacts = db; follow_up = refresh_badge }
  handle_message c sender config_changed x =
      let (n, db) = requeue_auth_blocked x.queue in
      let (m, art) = requeue_artifact_auth_blocked c.now x.artifacts in
      record { reply = requeued n m; queue = db; artifacts = art; follow_up = sync_and_refresh }
  handle_message c sender sync_now x = record {
    reply = synced;
    queue = (force_pending_due x.queue).1;
    artifacts = force_artifact_pending_due c.now x.artifacts;
    follow_up = sync_and_refresh;
  }

-- The text and the colour of the badge.
pub record Badge : Type 0 where
  pub text : Text
  pub color : Text

abbrev pub open_count : QueueStatus → ArtifactQueueStatus → ℕ
open_count t a =
    t.pending + t.auth_blocked + t.in_flight + t.dead + a.pending + a.auth_blocked + a.in_flight
    + a.dead + a.conflicts

abbrev pub needs_attention : QueueStatus → ArtifactQueueStatus → Bool
needs_attention t a =
    ltb 0 t.dead
    || ltb 0 t.auth_blocked
    || ltb 0 a.dead
    || ltb 0 a.auth_blocked
    || ltb 0 a.conflicts

-- `updateBadge`
unfoldable pub update_badge : ChromeStorage → QueueDb → ArtifactDb → ℕ → Badge
unfolding get_status get_artifact_status load_capture_settings
update_badge storage queue artifacts now =
    let t = get_status queue now in
    let a = get_artifact_status artifacts now in
    if not (load_capture_settings storage).enabled
    then record { text = codes "OFF"; color = codes "#6b7280" }
    else if open_count t a == 0
    then record { text = codes "ON"; color = codes "#2c6e49" }
    else record {
      text = decimal (open_count t a);
      color = if needs_attention t a then codes "#c0392b" else codes "#2c6e49";
    }
