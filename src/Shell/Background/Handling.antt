-- ===== src/Shell/Background/Handling.antt =====
-- What each message of apps/extension/src/background.ts may do to the two queues.
pub mod Laws
use newell_ai.Common.{ℕ, List, Text, Option, none, some, Bool, true, false, ◌≡◌}
use newell_ai.Queue.Types.{EnqueueInput}
use newell_ai.Queue.Enqueue.{enqueue, lookup_client_turn_id}
use newell_ai.Queue.Operations.{clear_dead_letters, requeue_auth_blocked, force_pending_due}
use newell_ai.Artifacts.Types.{ArtifactDb, ArtifactEnqueueResult, already_known, accepted}
use newell_ai.Artifacts.Queue.{
  enqueue_artifact, attach_artifact_bytes, force_artifact_pending_due,
  requeue_artifact_auth_blocked, dismiss_artifact_conflict, clear_artifact_dead_letters,
}
use newell_ai.Value.{Value}
use newell_ai.Capture.Messaging.{
  passed, blocked, SenderLike, Location, CaptureEnqueueMessage, authorize_capture_enqueue,
  authorize_legacy_enqueue,
}
use newell_ai.Capture.Messaging.Artifact.{ArtifactEnqueueMessage, authorize_artifact_enqueue}
use newell_ai.Capture.Messaging.Laws.{IsTrusted}
use newell_ai.Shell.Config.{load_capture_settings}
use newell_ai.Shell.Background.{
  Extension, Message, capture_enqueue, artifact_enqueue, enqueue_input, read_status,
  read_capture_settings, clear_letters, clear_artifact_letters, dismiss_conflict, config_changed,
  sync_now, refused_with, turn_result, artifact_result, cleared, dismissed, requeued, synced,
  no_follow_up, sync_and_refresh, Handled, Chance, artifact_input, turn_input,
}

-- The message is answered with an error, and nothing changes and nothing follows.
abbrev pub IsRefused : Extension → Handled → Type 0
IsRefused x h =
    ((error : Text) × (h.reply ≡ refused_with error))
    × (h.queue ≡ x.queue)
    × (h.artifacts ≡ x.artifacts)
    × (h.follow_up ≡ no_follow_up)

-- The turn is enqueued once, with the random ids and the time of the call.
abbrev pub IsTaken : Chance → EnqueueInput → Extension → Handled → Type 0
IsTaken c input x h =
    (h.reply ≡ turn_result (enqueue x.queue input c.turn_uuid c.queue_uuid c.now).0)
    × (h.queue ≡ (enqueue x.queue input c.turn_uuid c.queue_uuid c.now).1)
    × (h.artifacts ≡ x.artifacts)
    × (h.follow_up ≡ sync_and_refresh)

abbrev pub is_on : Extension → Bool
is_on x = (load_capture_settings x.storage).enabled

abbrev pub user_of : Extension → Text
user_of x = (load_capture_settings x.storage).user_id

-- The bytes of a message for an artifact that is known already are attached to it; else the stores
-- stay as the enqueueing left them.
pub data Recovery (m : ArtifactEnqueueMessage) (now : ℕ)
    : ArtifactEnqueueResult × ArtifactDb → ArtifactDb → Type 0 where
  new_one : (id : Text) (db : ArtifactDb) → Recovery m now (accepted id, db) db
  without_bytes :
      (id : Text) (db : ArtifactDb) → m.bytes ≡ none → Recovery m now (already_known id, db) db
  with_bytes :
      (id : Text) (db : ArtifactDb) (bytes : List ℕ)
      → m.bytes ≡ some bytes
      → Recovery m now
          (already_known id, db)
          (attach_artifact_bytes db m.conversation_id id bytes m.declared_sha256
            m.declared_byte_size now).1

-- What may come of a message.
pub data Handling (parse_url : Text → Option Location) (id : Text) (c : Chance)
    (sender : SenderLike) (x : Extension) : Message → Handled → Type 0 where
  turn_blocked :
      (raw : Value) (h : Handled) (reason : Text)
      → authorize_capture_enqueue parse_url raw sender id ≡ blocked reason
      → IsRefused x h
      → Handling parse_url id c sender x (capture_enqueue raw) h
  turn_while_off :
      (raw : Value) (h : Handled)
      → is_on x ≡ false
      → IsRefused x h
      → Handling parse_url id c sender x (capture_enqueue raw) h
  turn_taken :
      (raw : Value) (h : Handled) (m : CaptureEnqueueMessage)
      → authorize_capture_enqueue parse_url raw sender id ≡ passed m
      → IsTrusted parse_url sender id
      → is_on x ≡ true
      → IsTaken c (turn_input m (user_of x)) x h
      → Handling parse_url id c sender x (capture_enqueue raw) h
  image_blocked :
      (raw : Value) (h : Handled) (reason : Text)
      → authorize_artifact_enqueue parse_url raw sender id ≡ blocked reason
      → IsRefused x h
      → Handling parse_url id c sender x (artifact_enqueue raw) h
  image_while_off :
      (raw : Value) (h : Handled)
      → is_on x ≡ false
      → IsRefused x h
      → Handling parse_url id c sender x (artifact_enqueue raw) h
  image_of_no_turn :
      (raw : Value) (h : Handled) (m : ArtifactEnqueueMessage)
      → lookup_client_turn_id x.queue m.conversation_id m.client_turn_id ≡ none
      → IsRefused x h
      → Handling parse_url id c sender x (artifact_enqueue raw) h
  image_not_queued :
      (raw : Value) (h : Handled) (m : ArtifactEnqueueMessage) (turn : Text)
      → enqueue_artifact x.artifacts (artifact_input m (user_of x) turn) c.queue_uuid c.now ≡ none
      → IsRefused x h
      → Handling parse_url id c sender x (artifact_enqueue raw) h
  image_taken :
      (raw : Value) (h : Handled) (m : ArtifactEnqueueMessage) (turn : Text)
      (r : ArtifactEnqueueResult × ArtifactDb)
      → authorize_artifact_enqueue parse_url raw sender id ≡ passed m
      → IsTrusted parse_url sender id
      → is_on x ≡ true
      → lookup_client_turn_id x.queue m.conversation_id m.client_turn_id ≡ some turn
      → enqueue_artifact x.artifacts (artifact_input m (user_of x) turn) c.queue_uuid c.now ≡ some r
      → h.reply ≡ artifact_result r.0
      → h.queue ≡ x.queue
      → Recovery m c.now r h.artifacts
      → h.follow_up ≡ sync_and_refresh
      → Handling parse_url id c sender x (artifact_enqueue raw) h
  input_blocked :
      (input : EnqueueInput) (h : Handled) (reason : Text)
      → authorize_legacy_enqueue parse_url sender id ≡ blocked reason
      → IsRefused x h
      → Handling parse_url id c sender x (enqueue_input input) h
  input_taken :
      (input : EnqueueInput) (h : Handled) (ok : Unit)
      → authorize_legacy_enqueue parse_url sender id ≡ passed ok
      → IsTaken c input x h
      → Handling parse_url id c sender x (enqueue_input input) h
  status_read :
      (h : Handled)
      → h.queue ≡ x.queue
      → h.artifacts ≡ x.artifacts
      → Handling parse_url id c sender x read_status h
  settings_read :
      (h : Handled)
      → h.queue ≡ x.queue
      → h.artifacts ≡ x.artifacts
      → Handling parse_url id c sender x read_capture_settings h
  letters_cleared :
      (h : Handled)
      → h.reply ≡ cleared (clear_dead_letters x.queue).0
      → h.queue ≡ (clear_dead_letters x.queue).1
      → h.artifacts ≡ x.artifacts
      → Handling parse_url id c sender x clear_letters h
  artifact_letters_cleared :
      (h : Handled)
      → h.reply ≡ cleared (clear_artifact_dead_letters x.artifacts).0
      → h.queue ≡ x.queue
      → h.artifacts ≡ (clear_artifact_dead_letters x.artifacts).1
      → Handling parse_url id c sender x clear_artifact_letters h
  conflict_dismissed :
      (artifact : Text) (h : Handled)
      → h.reply ≡ dismissed (dismiss_artifact_conflict x.artifacts artifact).0
      → h.queue ≡ x.queue
      → h.artifacts ≡ (dismiss_artifact_conflict x.artifacts artifact).1
      → Handling parse_url id c sender x (dismiss_conflict artifact) h
  both_requeued :
      (h : Handled)
      → h.reply
        ≡ requeued
            (requeue_auth_blocked x.queue).0
            (requeue_artifact_auth_blocked c.now x.artifacts).0
      → h.queue ≡ (requeue_auth_blocked x.queue).1
      → h.artifacts ≡ (requeue_artifact_auth_blocked c.now x.artifacts).1
      → h.follow_up ≡ sync_and_refresh
      → Handling parse_url id c sender x config_changed h
  both_forced :
      (h : Handled)
      → h.reply ≡ synced
      → h.queue ≡ (force_pending_due x.queue).1
      → h.artifacts ≡ force_artifact_pending_due c.now x.artifacts
      → h.follow_up ≡ sync_and_refresh
      → Handling parse_url id c sender x sync_now h
