-- ===== src/Queue/Sync.antt =====
-- The sync engine, apps/extension/src/queue/sync.ts. `localeCompare` is a parameter.
pub mod Select
pub mod Selection
pub mod Fairness
pub mod Result
pub mod Delivery
pub mod Distinct
pub mod Sanitize
pub mod Once
pub mod Runner
pub mod Termination
pub mod Requests
