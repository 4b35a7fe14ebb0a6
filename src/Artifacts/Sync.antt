-- ===== src/Artifacts/Sync.antt =====
-- The transfer of artifacts, apps/extension/src/artifacts/sync.ts.
pub mod Select
pub mod Respond
pub mod Once
pub mod Runner
pub mod Again
pub mod Oldest
pub mod Kept
pub mod Safety
pub mod Requests
