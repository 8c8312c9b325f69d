-- ===== src/Transport.antt =====
-- The peer-to-peer transport, validator/src/p2p/transport.ts.
pub mod Peers
pub mod Names
pub mod Runs
pub mod Takeover
mod Tests
