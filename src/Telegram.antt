-- ===== src/Telegram.antt =====
-- app/telegram: the sign-in of a user's account.
pub mod Auth
pub mod ClientFactory
mod Samples
