-- ===== src/Support.antt =====
-- Small packages of internal/: one-time tokens, the log buffer and the event hub.
pub mod Tokens
pub mod BufLog
pub mod Events
mod Examples
