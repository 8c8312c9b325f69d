-- ===== src/Bot.antt =====
-- The Telegram bot's store and the monitor that bridges deposits and burns: telegram-bot/src/store.cjs,
-- telegram-bot/src/bridge/monitor.cjs and the scans of telegram-bot/src/chains.
pub mod Store
pub mod Scan
pub mod Columns
pub mod Turns
pub mod Monitor
mod Tests
