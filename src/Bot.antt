-- ===== src/Bot.antt =====
-- app/bot: the state of a conversation.
pub mod State
