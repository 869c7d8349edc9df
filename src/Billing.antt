-- ===== src/Billing.antt =====
-- app/billing: plans, subscriptions, card payments and their approval.
pub mod Repositories
pub mod Reference
pub mod Service
pub mod Approval
pub mod Review
pub mod Rejection
pub mod Once
pub mod Overlap
pub mod Expiry
pub mod Purchase
mod Samples
