-- ===== src/DccWatcher.antt =====
-- The watcher of DCC burns, validator/src/watchers/dcc-watcher.ts.
pub mod Scan
pub mod Finality
pub mod Records
pub mod Polling
pub mod Finalized
mod Tests
