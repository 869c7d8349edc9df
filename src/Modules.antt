-- ===== src/Modules.antt =====
-- app/modules: which features a user has enabled, and the registry of the feature classes.
mod Samples
pub mod Manager
pub mod Registry
