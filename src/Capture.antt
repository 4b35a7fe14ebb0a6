-- ===== src/Capture.antt =====
-- apps/extension/src/capture: the messages of the content script, the identity of turns, and when
-- a turn is complete.
pub mod Messaging
pub mod Identity
pub mod Completion
pub mod Delivery
