-- ===== src/Shell.antt =====
-- The shell of the extension: its configuration and its service worker.
pub mod Config
pub mod Background
