-- ===== src/Thread.antt =====
-- The thread pools of thread/.
pub mod Pool
pub mod JobPool
mod Tests
mod JobTests
