-- ===== src/Js.antt =====
-- The parts of the JavaScript language and of Node's Buffer that the code uses.
pub mod Map
pub mod Distinct
pub mod Bytes
pub mod Text
pub mod Numerals
pub mod Decimal
pub mod Splits
