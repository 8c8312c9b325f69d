-- ===== src/TransferStore.antt =====
-- The API's store of transfers, api/src/utils/transfer-store.ts.
pub mod Store
pub mod Histories
pub mod Admin
mod Tests
