-- ===== src/Ring.antt =====
-- The queues of src/runtime that stand on a circular array.
pub mod Fifo
pub mod Capacity
pub mod Copy
pub mod Local
pub mod Mpmc
pub mod Spsc
pub mod Deque
