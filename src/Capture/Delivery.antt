-- ===== src/Capture/Delivery.antt =====
-- What `createChatgptObserver` of apps/extension/src/capture/chatgpt/observe.ts keeps of the images
-- that it has sent: `artifactSucceeded`, a set, and `artifactFailCounts`, a map, here the list of its
-- entries in the order of the keys. The source awaits the bytes and the answer between the test
-- `shouldSkipArtifact` and what it records, and scans may overlap, so the records are modelled one
-- by one, in the order in which the answers come.
pub mod Laws
mod Tests
use newell_ai.Common.{
  ℕ, ◌+◌, Text, codes, text_eq, Option, none, some, Bool, false, ◌||◌, List, [], ◌∷◌, any, leb,
  if◌then◌else◌,
}
use newell_ai.Common.Keys.{text_order}
use newell_ai.Idb.{put, get, delete}

abbrev pub artifact_enqueue_max_attempts : ℕ
artifact_enqueue_max_attempts = 2

pub record FailCount : Type 0 where
  pub attempt_key : Text
  pub fails : ℕ

abbrev pub fail_key : FailCount → Text
fail_key f = f.attempt_key

pub record Deliveries : Type 0 where
  pub succeeded : List Text
  pub fail_counts : List FailCount

-- `ArtifactEnqueueSendResult`, or nothing from a sender that does not answer
pub data SendResult : Type 0 where
  unanswered acknowledged : SendResult
  failed_with : Option Text → SendResult

abbrev pub no_deliveries : Deliveries
no_deliveries = record { succeeded = []; fail_counts = [] }

abbrev pub fails_of : Option FailCount → ℕ
fails_of none = 0
fails_of (some f) = f.fails

-- `shouldSkipArtifact`
unfoldable pub should_skip_artifact : Option Text → Deliveries → Bool
unfolding any get
should_skip_artifact none d = false
should_skip_artifact (some key) d =
    any (text_eq key) d.succeeded
    || leb artifact_enqueue_max_attempts (fails_of (get fail_key key d.fail_counts))

abbrev pub is_identity_unknown : Option Text → Bool
is_identity_unknown none = false
is_identity_unknown (some error) = text_eq error (codes "turn_identity_unknown")

abbrev pub succeed : Text → Deliveries → Deliveries
succeed key d = record d { succeeded = key ∷ d.succeeded }

-- `deliverArtifact` after the answer of the sender
unfoldable pub deliver_artifact : Option Text → SendResult → Deliveries → Deliveries
unfolding put delete get
deliver_artifact none result d = d
deliver_artifact (some key) unanswered d = succeed key d
deliver_artifact (some key) acknowledged d = record (succeed key d) {
  fail_counts = delete fail_key key d.fail_counts;
}
deliver_artifact (some key) (failed_with error) d =
    let fails = fails_of (get fail_key key d.fail_counts) + 1 in
    if is_identity_unknown error then d else record d {
      fail_counts = put fail_key (record { attempt_key = key; fails = fails }) d.fail_counts;
    }
