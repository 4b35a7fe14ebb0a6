-- ===== src/Worker/Router/Ingest.antt =====
-- An upload from the request to the tables.
use newell_ai.Common.{◌+◌, length, ◌≡◌, All}
use newell_ai.Common.Keys.{text_order, pair_order}
use newell_ai.Contracts.{UploadRequest}
use newell_ai.Value.{Value}
use newell_ai.Worker.Artifacts.{Outcome, returned}
use newell_ai.Worker.Http.{WorkerEnv}
use newell_ai.Worker.Router.State.{Reply, ingested, WorkerState, Platform, Draw}
use newell_ai.Worker.Turns.{PersistResult}
use newell_ai.Worker.Turns.Stored.{IsStored}

module _ {S : Type 0} (platform : Platform S) (env : WorkerEnv) (draw : Draw) where
  -- The counts add up to the turns, the accepted ones are the rows that the table has more, and
  -- every turn is in the table, as it was there before or with all that the upload says of it.
  abbrev pub IsIngested : UploadRequest → WorkerState S → Outcome Reply × WorkerState S → Type 0
  IsIngested upload st x =
      (r : PersistResult) × (x.0 ≡ returned (ingested r upload.conversation.conversation_id))
      × (r.accepted + r.duplicate ≡ length upload.turns)
      × (length x.1.db.turns ≡ length st.db.turns + r.accepted)
      × All (IsStored upload draw.now draw.uuids st.db.turns x.1.db.turns upload.turns) upload.turns
