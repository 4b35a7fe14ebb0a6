-- ===== src/Queue/Tests.antt =====
-- Runs of the queue on small data, and each theorem at a concrete input.
use newell_ai.Common.{
  List, ℕ, Text, codes, trim, none, some, false, [], ◌∷◌, ◌≡◌, ◌≢◌, refl, arith, All, ◌⊎◌, inl,
}
use newell_ai.Common.Int.{leb_ℤ}
use newell_ai.Common.Keys.{text_order, text_cmp}
use newell_ai.Common.{filter, text_eq}
use newell_ai.Common.Sorting.{sort}
use newell_ai.Contracts.{ConversationMetadata, CaptureMetadata, user}
use newell_ai.Idb.{get, put, delete, put_all}
use newell_ai.Token.{invalid, invalid_token_message, validate_capture_token}
use newell_ai.Queue.Types.{
  QueueEnvelope, EnqueueInput, TurnContent, pending, in_flight, accepted, already_known,
  SyncOutcome,
}
use newell_ai.Queue.Db.{QueueDb, queue_key, dead_key}
use newell_ai.Queue.Enqueue.{
  validate_source_key, enqueue, accept, next_turn_sequence, numbered_turn,
}
use newell_ai.Queue.Identity.{enqueue_again, turn_id_of, sequence_of}
use newell_ai.Queue.Numbering.{IsNumbered, EnqueueCall, enqueue_all, enqueue_all-IsNumbered}
use newell_ai.Queue.Operations.{set_status}
use newell_ai.Queue.Recovery.{IsQueueOrdered}
use newell_ai.Queue.Sync.Select.{select_batch, batch_of}
use newell_ai.Queue.Sync.Selection.{due_records}
use newell_ai.Queue.Sync.Fairness.{IsOldest, select_batch-IsOldest}
use newell_ai.Queue.Sync.Result.{apply_result}
use newell_ai.Queue.Sync.Delivery.{queue_fate, dead_fate, or_before}
use newell_ai.Queue.Sync.Distinct.{apply_result-fate}
use newell_ai.Queue.Sync.Sanitize.{error, sanitize_fetch_error}
use newell_ai.Queue.Sync.Once.{
  SyncConfig, HttpRequest, FetchResult, responded, no_outcome, sync_once, upload_request,
}
use newell_ai.Queue.Sync.Requests.{IsSafeRequest, sync_once-IsSafeRequest}
use newell_ai.Queue.Sync.Runner.{ready, run}
use newell_ai.Queue.Sync.Termination.{quiet, run_total}
use newell_ai.Queue.System.{System, Step, Reach, start, next, init, empty_db, enqueue_turn}
use newell_ai.Queue.System.Bounds.{IsBudgeted, Reach-IsBudgeted}
use newell_ai.Queue.System.Guarantee.{Fate, Reach-Fate}

abbrev conversation : Text → ConversationMetadata
conversation id = record {
  conversation_id = id;
  user_id = codes "u";
  title = none;
  source_model = none;
  started_at = none;
}

abbrev capture : CaptureMetadata
capture = record {
  capture_client = codes "chrome-extension";
  capture_client_version = none;
  surface = none;
  captured_batch_id = none;
}

abbrev content : TurnContent
content = record {
  speaker = user;
  text = codes "hi";
  captured_at = none;
  parent_client_turn_id = none;
  message_type = none;
  topic = none;
}

abbrev input : EnqueueInput
input = record {
  conversation = conversation (codes "c");
  capture = capture;
  source_key = some (codes " m1 ");
  turn = content;
}

abbrev envelope : Text → Text → ℕ → ℕ → QueueEnvelope
envelope id c n at = record {
  schema_version = 1;
  queue_id = id;
  state = pending;
  attempts = 0;
  next_attempt_at = at;
  enqueued_at = at;
  conversation = conversation c;
  capture = capture;
  turn = numbered_turn content id n;
}

abbrev first : QueueEnvelope
first = envelope (codes "a") (codes "c") 2 7

abbrev second : QueueEnvelope
second = envelope (codes "b") (codes "c") 1 9

abbrev other : QueueEnvelope
other = record (envelope (codes "d") (codes "e") 1 5) { state = in_flight; attempts = 4 }

abbrev sample : QueueDb
sample = record empty_db { queue = first ∷ second ∷ other ∷ [] }

abbrev config : SyncConfig
config = record { base_url = codes "http://w/"; token = codes " secret " }

abbrev spoiled : SyncConfig
spoiled = record config { token = codes "é" }

abbrev accepts : HttpRequest → FetchResult
accepts request = responded 200

abbrev accepts_always : ℕ → HttpRequest → FetchResult
accepts_always round = accepts

abbrev still : ℕ → ℕ
still round = 10

-- Runs.
accepts_turn : (enqueue empty_db input (codes "x") (codes "q") 3).0 ≡ accepted (codes "m1") 1
unfolding enqueue accept next_turn_sequence validate_source_key get trim codes text_cmp
accepts_turn = refl

oldest_conversation_first :
    (select_batch text_cmp 10 sample.queue).0 ≡ record other { state = pending } ∷ []
unfolding select_batch put put_all text_cmp codes sort filter text_eq
oldest_conversation_first = refl

sequence_order : (select_batch text_cmp 10 (first ∷ second ∷ [])).0 ≡ second ∷ first ∷ []
unfolding select_batch put put_all text_cmp codes sort filter text_eq leb_ℤ
sequence_order = refl

sanitizes :
    sanitize_fetch_error
      (error (codes "TypeError") (codes "x BEARER  abc y 0123456789abcdef0123456789ABCDEF/- z"))
    ≡ codes "network error (TypeError: x Bearer [redacted] y [redacted]/- z)"
unfolding sanitize_fetch_error codes trim
sanitizes = refl

delivers_all :
    run text_cmp accepts_always still (λ n. quiet) 4 (ready config) sample
    ≡ some (
      record (no_outcome false) { delivered = 3 },
      record empty_db { status = some (record { last_error = none; last_success_at = some 10 }) },
    )
unfolding run sync_once select_batch apply_result put put_all delete get text_cmp codes leb_ℤ
    validate_capture_token trim sort filter text_eq set_status
delivers_all = refl

-- The theorems.
abbrev one_turn : System
one_turn = record init {
  db = (enqueue empty_db input (codes "x") (codes "q") 3).1;
  accepted = (codes "q", numbered_turn content (codes "m1") 1) ∷ [];
}

one_turn-Step : Step init one_turn
unfolding enqueue accept next_turn_sequence validate_source_key get trim codes text_cmp
one_turn-Step = enqueue_turn input (codes "x") (codes "q") 3 tt

one_turn_reached : Reach one_turn
one_turn_reached = next start one_turn-Step

Reach-Fate_example : Fate one_turn (codes "q") (numbered_turn content (codes "m1") 1)
Reach-Fate_example =
    Reach-Fate one_turn_reached (codes "q") (numbered_turn content (codes "m1") 1)
      (inl (refl, refl))

Reach-IsBudgeted_example : IsBudgeted one_turn
Reach-IsBudgeted_example = Reach-IsBudgeted one_turn_reached

sample_ordered : IsQueueOrdered sample.queue
unfolding codes text_cmp
sample_ordered = ((refl, (refl, tt)), ((refl, tt), (tt, tt)))

apply_result-fate_example :
    let batch = (select_batch text_cmp 10 sample.queue).0 in
    let db = (apply_result sample batch (some 500) 10 (no_outcome false) none).1 in
    All
      (λ e.
        (get queue_key e.queue_id db.queue ≡ queue_fate (some 500) 10 e)
        × (get dead_key e.queue_id db.dead
            ≡ or_before (dead_fate (some 500) 10 e) (get dead_key e.queue_id sample.dead)))
      batch
apply_result-fate_example =
    apply_result-fate text_cmp 10 sample.queue sample (some 500) (no_outcome false) none
      sample_ordered

run_total_example :
    (result : SyncOutcome × QueueDb) × (run text_cmp accepts_always still
        (λ n. quiet)
        4
        (ready config)
        sample
      ≡ some result)
run_total_example =
    run_total text_cmp accepts_always still 4 (ready config) sample sample_ordered (omega arith)

select_batch-IsOldest_example :
    ((due_records 10 sample.queue ≡ []) × ((select_batch text_cmp 10 sample.queue).0 ≡ []))
    ⊎ ((target : Text) × IsOldest (due_records 10 sample.queue) target
        × ((select_batch text_cmp 10 sample.queue).0
            ≡ batch_of target (due_records 10 sample.queue))
        × ((select_batch text_cmp 10 sample.queue).0 ≢ []))
select_batch-IsOldest_example = select_batch-IsOldest text_cmp 10 sample.queue

abbrev two_calls : List EnqueueCall
two_calls =
    record { input = input; turn_uuid = codes "x"; queue_uuid = codes "q"; now = 3 }
    ∷ record { input = input; turn_uuid = codes "y"; queue_uuid = codes "r"; now = 4 }
    ∷ []

enqueue_all-IsNumbered_example : IsNumbered (enqueue_all two_calls)
enqueue_all-IsNumbered_example = enqueue_all-IsNumbered two_calls

m1_valid : validate_source_key (some (codes " m1 ")) ≡ some (codes "m1")
unfolding validate_source_key codes trim
m1_valid = refl

enqueue_again_example :
    enqueue (enqueue empty_db input (codes "x") (codes "q") 3).1 input (codes "y") (codes "r") 8 ≡ (
      already_known
          (turn_id_of (enqueue empty_db input (codes "x") (codes "q") 3).0)
          (sequence_of (enqueue empty_db input (codes "x") (codes "q") 3).0),
      (enqueue empty_db input (codes "x") (codes "q") 3).1,
    )
enqueue_again_example =
    enqueue_again empty_db input (codes "x") (codes "q") 3 (codes "m1") input (codes "y")
      (codes "r") 8 m1_valid m1_valid refl

sample_request : HttpRequest
sample_request =
    upload_request (record config { token = codes "secret" }) (record other { state = pending }) []

sample_sent : (sync_once text_cmp accepts 10 quiet sample config).sent ≡ some sample_request
unfolding sample_request sync_once select_batch put put_all text_cmp codes validate_capture_token
    trim sort filter text_eq
sample_sent = refl

sync_once-IsSafeRequest_example : IsSafeRequest sample_request
sync_once-IsSafeRequest_example =
    sync_once-IsSafeRequest text_cmp accepts 10 quiet sample config sample_request sample_sent

spoiled_token : validate_capture_token (codes "é") ≡ invalid invalid_token_message
unfolding validate_capture_token trim codes
spoiled_token = refl
