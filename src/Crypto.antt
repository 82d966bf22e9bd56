-- ===== src/Crypto.antt =====
-- The digests of crypto/.
pub mod Blocks
pub mod Md5
pub mod Sha1
pub mod Hash
mod Tests
mod HashTests
mod Sha1Tests
