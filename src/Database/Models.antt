-- ===== src/Database/Models.antt =====
-- app/database/models: the rows of the tables. The columns of `TimestampMixin` are set by the
-- database and read by nothing, so they are left out. A time is a number of microseconds.
pub mod Users
pub mod Admins
pub mod Billing
pub mod Userbots
pub mod Modules
pub mod Scheduler
pub mod Automation
pub mod Audit
