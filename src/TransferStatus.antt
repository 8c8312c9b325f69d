-- ===== src/TransferStatus.antt =====
-- The routes of api/src/routes/transfer.ts.
pub mod Chain
pub mod Route
pub mod Records
pub mod Stream
pub mod Listeners
pub mod Pushes
mod Tests
