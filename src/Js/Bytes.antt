-- ===== src/Js/Bytes.antt =====
-- Node's Buffer: a list of bytes. Little-endian words, zero-filled copies, hexadecimal text and UTF-8.
mod Words
mod Texts
unfoldable pub use Words.*
unfoldable pub use Texts.*
