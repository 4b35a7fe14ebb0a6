-- ===== src/Queue.antt =====
-- The Durable Queue of the capture client, apps/extension/src/queue.
pub mod Types
pub mod Db
pub mod Enqueue
pub mod Identity
pub mod Numbering
pub mod Recovery
pub mod Operations
pub mod Sync
pub mod Keeps
mod Tests
pub mod Backoff
pub mod System
