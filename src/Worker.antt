-- ===== src/Worker.antt =====
-- The worker, apps/worker/src.
pub mod Db
mod Samples
pub mod Turns
pub mod Artifacts
pub mod Auth
pub mod Search
pub mod Validate
pub mod Reads
pub mod Http
pub mod Local
pub mod Router
pub mod Associate
