-- ===== src/Sync.antt =====
-- The coroutine synchronisation primitives of src/runtime: affinity_baton.h, affinity_mutex.h,
-- affinity_semaphore.h, and their bodies in worker.cc. A primitive's state is one atomic word or
-- two; each operation is the step that its successful compare-exchange or exchange makes, so that
-- a run of operations is a sequence of such steps.
pub mod Mutex
pub mod Semaphore
pub mod Baton
pub mod Waiters
