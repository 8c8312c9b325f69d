-- ===== src/Relay.antt =====
-- The Telegram bot's relay, telegram-bot/src/bridge/relay.cjs.
pub mod Retry
pub mod Transfers
pub mod Statuses
mod Tests
