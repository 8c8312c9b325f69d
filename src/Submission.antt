-- ===== src/Submission.antt =====
-- The submission of a consensus result to its destination chain, validator/src/main.ts.
pub mod Mint
pub mod Minting
pub mod Unlock
pub mod Borsh
pub mod Signing
mod Tests
