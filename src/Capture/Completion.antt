-- ===== src/Capture/Completion.antt =====
-- apps/extension/src/capture/chatgpt/completion.ts. The state is what `tracker` has under the one
-- key that the functions read and write. Times are natural numbers.
pub mod Laws
mod Tests
use newell_ai.Common.{
  ℕ, ◌+◌, Text, codes, text_eq, Option, none, some, Bool, true, false, not, ◌&&◌, ◌||◌, List, [],
  ◌∷◌, length, leb, ltb, ◌==◌, if◌then◌else◌,
}

abbrev pub generated_image_text : Text
generated_image_text = codes "[generated image]"

pub record CompletionFlags : Type 0 where
  pub has_stop_affordance : Bool
  pub has_streaming_marker : Bool

pub record StabilityEntry : Type 0 where
  pub text : Text
  pub since : ℕ

unfoldable pub effective_text : Text → Bool → Text
effective_text normalized has_image =
    if ltb 0 (length normalized) then normalized else if has_image then generated_image_text else []

-- The end of `evaluateAssistantCompletion`, where the text is not empty.
unfoldable pub track : Text → ℕ → ℕ → Option StabilityEntry → Bool × Option StabilityEntry
track text now stability none = (false, some (record { text = text; since = now }))
track text now stability (some prev) =
    if text_eq prev.text text
    then (leb (prev.since + stability) now, some prev)
    else (false, some (record { text = text; since = now }))

-- `evaluateAssistantCompletion`
unfoldable pub evaluate_assistant_completion :
    Text → CompletionFlags → Option StabilityEntry → ℕ → ℕ → Bool → Bool × Option StabilityEntry
unfolding effective_text track
evaluate_assistant_completion normalized flags entry now stability has_image =
    if flags.has_stop_affordance || flags.has_streaming_marker
    then (false, none)
    else if length (effective_text normalized has_image) == 0
    then (false, none)
    else track (effective_text normalized has_image) now stability entry

-- `evaluateUserCompletion`
abbrev pub evaluate_user_completion : Text → Bool
evaluate_user_completion normalized = ltb 0 (length normalized)

-- `evaluateUserCompletionWithAttachment`
abbrev pub evaluate_user_completion_with_attachment : Text → Bool → Bool
evaluate_user_completion_with_attachment normalized has_image =
    ltb 0 (length normalized) || has_image

-- What one scan sees of a turn.
pub record Sight : Type 0 where
  pub normalized : Text
  pub flags : CompletionFlags
  pub now : ℕ
  pub has_image : Bool

-- The scans of a turn, the last one first.
unfoldable pub scans : ℕ → List Sight → Bool × Option StabilityEntry
unfolding evaluate_assistant_completion
scans stability [] = (false, none)
scans stability (s ∷ earlier) =
    evaluate_assistant_completion s.normalized s.flags (scans stability earlier).1 s.now stability
      s.has_image
