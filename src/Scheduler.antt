-- ===== src/Scheduler.antt =====
-- app/scheduler: scheduled tasks, the rules by which they repeat, and the loop that dispatches them.
mod Samples
pub mod Rules
pub mod Service
pub mod Loop
