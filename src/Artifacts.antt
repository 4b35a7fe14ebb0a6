-- ===== src/Artifacts.antt =====
-- The artifact queue of the extension, apps/extension/src/artifacts.
pub mod Types
pub mod Queue
pub mod Sync
pub mod Sound
pub mod System
pub mod Crossing
pub mod Identity
pub mod Recovery
pub mod Allowlist
mod Tests
