-- ===== src/Signer.antt =====
-- The validator's signer, validator/src/signer/threshold-signer.ts.
pub mod Keys
pub mod Signing
pub mod Written
pub mod Restart
mod Tests
