-- ===== src/Container.antt =====
-- The containers of container/.
pub mod Slots
pub mod Fifo
pub mod Queue
pub mod Stack
pub mod Array
pub mod PriorityQueue
mod Tests
pub mod IntrusiveList
mod GrowTests
