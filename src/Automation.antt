-- ===== src/Automation.antt =====
-- app/automation: rules of a trigger, conditions and actions.
pub mod Conditions
pub mod Actions
pub mod Service
pub mod Logic
pub mod Runs
mod Samples
