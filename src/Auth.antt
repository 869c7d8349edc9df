-- ===== src/Auth.antt =====
-- app/auth: the permissions of the admins.
mod Samples
pub mod Permissions
pub mod Rbac
