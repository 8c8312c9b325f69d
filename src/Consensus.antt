-- ===== src/Consensus.antt =====
-- The BFT consensus engine, validator/src/consensus/engine.ts.
pub mod Message
pub mod Engine
pub mod Schedule
pub mod Rules
pub mod Quorum
pub mod Counting
pub mod Once
pub mod Binding
pub mod Receiving
mod Tests
