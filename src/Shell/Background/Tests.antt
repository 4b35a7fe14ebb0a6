-- ===== src/Shell/Background/Tests.antt =====
-- Messages to the service worker, and the theorems at concrete inputs.
use newell_ai.Queue.Enqueue.{accept, next_turn_sequence}
use newell_ai.Idb.{get}
use newell_ai.Common.{
  text_eq, trim, Text, codes, none, some, Option, true, [], ◌≡◌, refl, inl, arith,
}
use newell_ai.Queue.Types.{accepted}
use newell_ai.Queue.System.{init, empty_db}
use newell_ai.Artifacts.Types.{ArtifactDb}
use newell_ai.Value.{field, Value, boolean, undefined, string, object, no_props, prop}
use newell_ai.Capture.Messaging.{◌>>=◌, ensure, present, Location, SenderLike}
use newell_ai.Shell.Config.{ChromeStorage}
use newell_ai.Shell.Background.{
  Extension, Chance, capture_enqueue, artifact_enqueue, turn_result, refused_with, handle_message,
}
use newell_ai.Shell.Background.Laws.{Refines}
use newell_ai.Shell.Background.Handling.{Handling}
use newell_ai.Shell.Background.Handling.Laws.{handle_message-Handling}
use newell_ai.Shell.Background.Off.{IsUnchanged, handle_message-IsUnchanged}

abbrev parse_any : Text → Option Location
parse_any s = some (record {
  protocol = codes "https:";
  origin = codes "https://chatgpt.com";
  hostname = codes "chatgpt.com";
})

abbrev page : SenderLike
page = record { id = some (codes "me"); url = none; origin = none; tab = some (some (codes "p")) }

abbrev stranger : SenderLike
stranger = record { id = some (codes "x"); url = none; origin = none; tab = none }

abbrev turn_body : Value
turn_body = object (
    prop (codes "type") (string (codes "captureEnqueue")) (
      prop (codes "conversation_id") (string (codes "c")) (
        prop (codes "source_key") (string (codes "k")) (
          prop (codes "speaker") (string (codes "user"))
            (prop (codes "text") (string (codes "hi")) no_props)))))

abbrev enabled_storage : ChromeStorage
enabled_storage = record {
  base_url = undefined;
  token = undefined;
  capture_enabled = boolean true;
  user_id = undefined;
}

abbrev no_artifacts : ArtifactDb
no_artifacts = record { queue = []; dead = []; conflicts = []; identities = []; status = none }

abbrev chance : Chance
chance = record { turn_uuid = codes "u"; queue_uuid = codes "q"; now = 5 }

abbrev new_extension : Extension
new_extension = record { queue = empty_db; artifacts = no_artifacts; storage = enabled_storage }

accepts_turn :
    (handle_message parse_any
      (codes "me")
      chance
      page
      (capture_enqueue turn_body)
      new_extension).reply
    ≡ turn_result (accepted (codes "k") 1)
unfolding handle_message ◌>>=◌ text_eq codes ensure field present trim get accept next_turn_sequence
accepts_turn = refl

refuses_stranger :
    (handle_message parse_any
      (codes "me")
      chance
      stranger
      (capture_enqueue turn_body)
      new_extension).reply
    ≡ refused_with (codes "sender_id")
unfolding handle_message ◌>>=◌ text_eq codes
refuses_stranger = refl

handle_message-Handling_example :
    Handling parse_any
      (codes "me")
      chance
      page
      new_extension
      (capture_enqueue turn_body)
      (handle_message parse_any (codes "me") chance page (capture_enqueue turn_body) new_extension)
    × Refines init no_artifacts (
        handle_message parse_any (codes "me") chance page (capture_enqueue turn_body) new_extension)
handle_message-Handling_example =
    handle_message-Handling chance init no_artifacts enabled_storage tt parse_any (codes "me") page
      (capture_enqueue turn_body)

stranger_id : ¬ (stranger.id ≡ some (codes "me"))
unfolding codes
stranger_id h = ground (arith, h)

handle_message-IsUnchanged_example :
    IsUnchanged new_extension (
      handle_message parse_any
        (codes "me")
        chance
        stranger
        (capture_enqueue turn_body)
        new_extension)
    × IsUnchanged new_extension (
        handle_message parse_any
          (codes "me")
          chance
          stranger
          (artifact_enqueue turn_body)
          new_extension)
handle_message-IsUnchanged_example =
    handle_message-IsUnchanged parse_any (codes "me") chance stranger new_extension turn_body
      (inl stranger_id)
