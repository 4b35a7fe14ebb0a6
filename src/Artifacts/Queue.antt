-- ===== src/Artifacts/Queue.antt =====
-- apps/extension/src/artifacts/queue.ts
mod Enqueue
mod States
mod Status
unfoldable pub use Enqueue.*
unfoldable pub use States.*
unfoldable pub use Status.*
