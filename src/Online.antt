-- ===== src/Online.antt =====
-- src/runtime/online_worker.h and .cc, online_group.h and .cc: Queue is the queues that a worker has,
-- Worker what it does with them, Group the group.
pub mod Queue
pub mod Worker
pub mod Group
