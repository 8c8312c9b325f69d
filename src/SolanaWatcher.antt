-- ===== src/SolanaWatcher.antt =====
-- The watcher of Solana deposits, validator/src/watchers/solana-watcher.ts.
pub mod Decode
pub mod Finality
pub mod Layout
pub mod Chain
pub mod Spl
pub mod Finalized
mod Tests
