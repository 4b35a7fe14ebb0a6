-- ===== src/Lib.antt =====
-- A model of NewellAI: a browser extension that captures conversation turns into a durable queue
-- and delivers them to a worker, which validates and stores them.
--
-- Common holds what all parts share: strings as lists of UTF-16 code units with `trim` (Strings,
-- Trimming), lists, stable sorting, and totally ordered keys. Idb models the object stores of
-- IndexedDB (apps/extension/src/queue/db.ts): a store is the list of its records in the order of
-- their keys, and a transaction is a function from the stores to the stores, since it commits as
-- a whole. Contracts has the wire types of packages/contracts/src/index.ts.
--
-- Token models apps/extension/src/token.ts (`validateCaptureToken`).
-- Queue models apps/extension/src/queue: Types and Db the records, Enqueue the functions
-- `validateSourceKey`, `enqueue` and `lookupClientTurnId`, Operations the maintenance functions of
-- queue.ts, and Sync the engine of sync.ts: Select is the first transaction of `syncOnce`, Result
-- is `applyResult`, Sanitize the diagnostics, Once is `syncOnce` itself, Runner the loop of
-- `createSyncRunner`. System puts the transactions of all handlers into one step relation, with a
-- request under way for any number of steps; at most one sync runs at a time, as the runner
-- ensures. The other modules hold the theorems, and Tests runs and instances of them.
--
-- Times and numbers are natural numbers. Random ids, the time, `localeCompare`, the server's
-- answers and what other handlers do during a request are arguments. The runner's loop takes fuel;
-- one round more than the queue has records is enough if no other handler works on the queue while
-- the loop runs. The scans of the diagnostics take one unit of fuel for each code unit of the text,
-- and every round drops one at least.
--
-- Artifacts models apps/extension/src/artifacts, the queue beside the first one that carries
-- images: Types the records and stores of types.ts and db.ts, Queue the operations of queue.ts,
-- Allowlist the checks of allowlist.ts, and Sync the transfer of sync.ts: Select is
-- `selectDueArtifact` and `holdArtifactAuthBlocked`, Respond what an answer does to the stores, Once
-- is `syncArtifactOnce` in its two phases, Runner a call of `createArtifactSyncRunner`. System has
-- the handlers that commit as a whole. The runner does not wait for a sync before it takes the next
-- call, so syncs may overlap and cross: Crossing cuts a sync at the requests it awaits, with any
-- number of syncs under way, and its Phases are shown to make up the transfer.
--
-- Worker models the server side, apps/worker/src: Db the tables of the migrations as stores in the
-- order of the keys that the statements look up, Turns `persistUpload` of db/turns.ts, Artifacts the
-- functions of db/artifacts.ts, and Artifacts/Content the handlers of routes/v1/artifacts.ts that
-- write and read the bytes, over the interface of storage/types.ts. Auth is auth.ts with the
-- sessions of recall/sessionState.ts, and Search the helpers of search/like.ts and
-- search/snippet.ts.
--
-- Worker/Validate is apps/worker/src/validate: the parsers of the two request bodies with every
-- issue they report. Value has the values of the type `unknown` that they and the extension's gates
-- read; its numbers are integers.
--
-- Capture models apps/extension/src/capture: Messaging the gates of messaging.ts for turns
-- (`authorizeCaptureEnqueue`), images (`authorizeArtifactEnqueue`, with the bytes in Bytes) and the
-- extension's own pages. Shell models the rest of the extension: Config is config.ts over
-- `chrome.storage.local` with its export (Transfer) and pairing (Pairing), and Background the message
-- handler and the badge of background.ts. The handler's result says what is to follow, a sync or a
-- new badge; the syncs themselves are steps of the two systems above.
--
-- Worker/Reads has the queries of db/reads.ts, db/search.ts and db/status.ts over the same tables;
-- their ORDER BY clauses are chains of the comparisons of Common/Comparing. Strings compare by code
-- units, which is the order of the database for characters below U+10000. LIKE is a parameter.
--
-- Worker/Router has the handlers of routes/v1 and `routeV1` of index.ts over the worker's state, with
-- what the platform gives as parameters; Worker/Http is what they read of a request and of env.ts,
-- and Worker/Local the routes of a local worker, devPair.ts with its latch and recallSession.ts.
-- Worker/Associate is recall/associate.ts, which puts artifacts to turns for the recall page.
-- Capture/Identity is capture/chatgpt/identity.ts with `coalesceCandidates` of observe.ts, and
-- Capture/Completion is completion.ts with the scans of one turn. Capture/Delivery is what observe.ts
-- keeps of the images that it has sent: the test and the records are modelled one by one, since the
-- source awaits the bytes and the answer between them and scans may overlap.
--
-- Not modelled: reading turns and images from the page (the DOM), the options page, the recall web
-- page, and opening databases and files. Of the worker the health route, the static pages and the
-- headers of most answers are left out, and its database is bound.
pub mod Common
pub mod Idb
pub mod Contracts
pub mod Token
pub mod Value
pub mod Queue
pub mod Artifacts
pub mod Capture
pub mod Shell
pub mod Worker
