-- ===== src/Api.antt =====
-- The API's routes: api/src/routes and api/src/utils/dcc-helpers.ts.
pub mod Addresses
pub mod Limits
pub mod Tokens
pub mod Requests
pub mod Accepted
pub mod Minted
mod Tests
