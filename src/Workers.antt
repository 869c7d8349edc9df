-- ===== src/Workers.antt =====
-- app/workers: the signed command bus.
mod Samples
pub mod Commands
pub mod Manager
