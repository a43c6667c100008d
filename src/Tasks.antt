-- ===== src/Tasks.antt =====
-- The tasks beside the shell channel: src/handlers.
pub mod Control
pub mod Forward
pub mod Streams
pub mod Shutdowns
