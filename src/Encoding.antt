-- ===== src/Encoding.antt =====
-- The encodings of encoding/.
pub mod Binary
pub mod Hex
pub mod Bcd
pub mod Base64
mod Tests
