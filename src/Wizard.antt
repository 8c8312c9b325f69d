-- ===== src/Wizard.antt =====
-- The bot's wizard for a transfer, telegram-bot/src/scenes/bridge-wizard.cjs.
pub mod Steps
pub mod Scene
pub mod Kept
pub mod Valid
mod Tests
