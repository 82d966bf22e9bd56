-- ===== src/Sync.antt =====
-- The synchronisation objects of sync/.
pub mod MsgQueue
pub mod WaitGroup
pub mod Event
pub mod Ref
pub mod PubSub
pub mod Shutdown
pub mod Sem
pub mod RwLock
mod Tests
mod LockTests
mod SemTests
mod CountTests
