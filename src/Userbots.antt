-- ===== src/Userbots.antt =====
-- app/userbots: the userbots of the users.
mod Samples
pub mod Model
pub mod Status
pub mod Repository
pub mod Service
pub mod Runtime
