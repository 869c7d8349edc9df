-- ===== src/Database.antt =====
-- app/database: the tables, their rows, and the repository that reads and writes them.
pub mod Table
pub mod Json
pub mod Models
pub mod State
pub mod Seed
pub mod Empty
pub mod Repository
pub mod Tenancy
mod Samples
