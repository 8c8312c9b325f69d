-- ===== src/RateLimiter.antt =====
-- The Telegram bot's rate limiter, telegram-bot/src/middleware/rateLimiter.cjs.
pub mod Limiter
pub mod Sliding
pub mod Runs
pub mod Admission
mod Tests
