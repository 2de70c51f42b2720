-- ===== src/Sending.antt =====
-- The sending pipeline of internal/manager: one campaign's pipe with the threads that share it.
pub mod Pipe
pub mod Worker
pub mod Feeder
pub mod Cleaner
pub mod System
mod Examples
