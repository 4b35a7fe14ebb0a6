-- ===== src/Artifacts/Queue/Status.antt =====
-- The status record, the conflict notices and the dead letters of
-- apps/extension/src/artifacts/queue.ts.
use newell_ai.Common.{
  ℕ, Text, Option, none, some, Bool, true, false, not, List, [], ◌∷◌, filter, length, if◌then◌else◌,
  ltb,
}
use newell_ai.Common.Int.{ℤ, pos, negsuc, sub_ℕ}
use newell_ai.Common.Keys.{text_order, pair_order}
use newell_ai.Idb.{put, get, delete}
use newell_ai.Artifacts.Types.{
  ArtifactQueueEnvelope, ArtifactDeadLetter, ArtifactConflictNotice, ArtifactQueueStatus,
  shorten_checksum, ArtifactStatusRecord, ArtifactDb, artifact_dead_key, conflict_key,
}
use newell_ai.Artifacts.Queue.States.{is_pending, is_in_flight, is_auth_blocked}

-- The argument `patch` of `setArtifactStatus`; `none` is a field that is not given.
pub record StatusPatch : Type 0 where
  pub last_error : Option (Option Text)
  pub last_success_at : Option (Option ℕ)

abbrev pub patched {ℓ} : {A : Type ℓ} → Option A → A → A
patched none old = old
patched (some new) old = new

abbrev pub current_artifact_status : Option ArtifactStatusRecord → ArtifactStatusRecord
current_artifact_status none = record { last_error = none; last_success_at = none }
current_artifact_status (some r) = r

-- `setArtifactStatus`
unfoldable pub set_artifact_status : StatusPatch → ArtifactDb → ArtifactDb
set_artifact_status patch db =
    let current = current_artifact_status db.status in
    record db {
      status = some (record {
        last_error = patched patch.last_error current.last_error;
        last_success_at = patched patch.last_success_at current.last_success_at;
      });
    }

-- `a > b`
abbrev pub gt_ℤ : ℤ → ℤ → Bool
gt_ℤ (pos a) (pos b) = ltb b a
gt_ℤ (pos a) (negsuc b) = true
gt_ℤ (negsuc a) (pos b) = false
gt_ℤ (negsuc a) (negsuc b) = ltb a b

abbrev pub older : ℤ → Option ℤ → ℤ
older age none = age
older age (some oldest) = if gt_ℤ age oldest then age else oldest

-- The loop of `getArtifactStatus` over the pending records.
unfoldable pub oldest_age : ℕ → Option ℤ → List ArtifactQueueEnvelope → Option ℤ
oldest_age now oldest [] = oldest
oldest_age now oldest (e ∷ s) = oldest_age now (some (older (sub_ℕ now e.enqueued_at) oldest)) s

-- `listOpenArtifactConflicts`
unfoldable pub list_open_artifact_conflicts : ArtifactDb → List ArtifactConflictNotice
list_open_artifact_conflicts db = filter (λ c. not c.dismissed) db.conflicts

-- `getArtifactStatus`
unfoldable pub get_artifact_status : ArtifactDb → ℕ → ArtifactQueueStatus
unfolding oldest_age list_open_artifact_conflicts
get_artifact_status db now =
    let waiting = filter is_pending db.queue in
    let s = current_artifact_status db.status in
    record {
      pending = length waiting;
      auth_blocked = length (filter is_auth_blocked db.queue);
      in_flight = length (filter is_in_flight db.queue);
      dead = length db.dead;
      conflicts = length (list_open_artifact_conflicts db);
      oldest_pending_age_ms = oldest_age now none waiting;
      last_error = s.last_error;
      last_success_at = s.last_success_at;
    }

-- `dismissArtifactConflict`
unfoldable pub dismiss_artifact_conflict : ArtifactDb → Text → Bool × ArtifactDb
dismiss_artifact_conflict db client_artifact_id =
    elim (get conflict_key client_artifact_id db.conflicts) [
      | none ↦ (false, db)
      | some row ↦ (
        true,
        record db { conflicts = put conflict_key (record row { dismissed = true }) db.conflicts },
      )
    ]

-- The loop of `clearArtifactDeadLetters`.
unfoldable pub delete_letters :
    List ArtifactDeadLetter → List ArtifactDeadLetter → List ArtifactDeadLetter
delete_letters [] s = s
delete_letters (d ∷ all) s = delete_letters all (delete artifact_dead_key (artifact_dead_key d) s)

-- `clearArtifactDeadLetters`
unfoldable pub clear_artifact_dead_letters : ArtifactDb → ℕ × ArtifactDb
unfolding delete_letters
clear_artifact_dead_letters db =
    (length db.dead, record db { dead = delete_letters db.dead db.dead })

-- `conflictNoticeFromEnvelope`
unfoldable pub conflict_notice_from_envelope :
    ArtifactQueueEnvelope → Text → ℕ → ArtifactConflictNotice
unfolding shorten_checksum
conflict_notice_from_envelope e reason now = record {
  client_artifact_id = e.client_artifact_id;
  conversation_id = e.conversation_id;
  artifact_type = e.artifact_type;
  original_filename = e.original_filename;
  checksum_fingerprint = shorten_checksum e.declared_sha256;
  reason = reason;
  conflict_at = now;
  dismissed = false;
}
