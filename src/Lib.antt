-- ===== src/Lib.antt =====
-- storage-engine: the runtime's queues, scheduler and policies, executors, timers, coroutine
-- primitives, memory pool and control loops.
--
-- The runtime runs coroutines on worker threads. A worker polls several work queues, of which a
-- scheduling policy picks the next one and the size of the batch; it idles adaptively when all are
-- empty. Coroutines wait for one another on a mutex, a semaphore or a baton, and are resumed through
-- the route to the worker on which they suspended, or by a timer. The workers of an executor have a
-- ring each and steal from one another. Memory comes from a pool with size classes. A
-- feedback loop switches the workers between two kinds of engine queue. Names below are those of the
-- source, in snake_case; paths are from the repository's root.
--
-- Prelude: helpers. Prelude/Window: the elements of a circular store from a position on.
-- Ring/Local: src/runtime/local_queue.h and local_work_queue.h, .cc. The queue is a store of slots and
--   two indices; a mask by a power of two less one is a remainder.
-- Ring/Mpmc: src/runtime/mpmc_ring.h, with ring_work_queue.h and affine_work_queue.h, .cc. The four
--   counters wrap at 2 ^ 64. The loop of the constructor runs on 65 rounds of fuel, which is enough for
--   any capacity that a power of two in a size_t reaches. Ring/Mpmc/Contents and Refine have the refinement.
-- Ring/Spsc: src/runtime/batched_spsc_queue.h and batched_spsc_work_queue.h, .cc.
-- Ring/Deque: src/runtime/chase_lev_deque.h, behind work_stealing_deque.h.
-- Sync/Waiters, Sync/Mutex, Sync/Semaphore, Sync/Baton: src/runtime/affinity_mutex.h,
--   affinity_semaphore.h, affinity_baton.h and the bodies in worker.cc. A tagged pointer in an atomic
--   word is a data type; a compare-exchange that succeeds is one step. A System adds who holds or waits,
--   an Event is one step of some coroutine or timer, and runs are lists of events in any order.
-- Work: src/runtime/work_item.h. Interface: the virtual classes of work_queue.h and scheduling_policy.h
--   as records of operations, with what the scheduler relies on as records of laws.
-- Scheduler: src/runtime/scheduler.h and .cc over those interfaces. The drain of the affine queue runs
--   on fuel; one round for each item of the queue and one more are enough if the items that run add
--   none. Scheduler/Drain, BusyRound and PolicyRound say what the loops do. Stop and its parts have the
--   steps of run with enter_idle and of request_stop, on two threads: run returns within as many of its
--   steps as the loops of reads have turns, and four.
-- Timer: src/runtime/timer.h and .cc. The heap is the list of what was pushed; the thread of the shared
--   wheel, the two steps of an insertion, the push and the notification, and those of a stop come in any
--   order. The loop of expire has a round for each node. Timer/Expiry, Thread and Delivery.
-- Topology and Executor: src/runtime/work_stealing_executor.h and .cc. hwloc is a parameter, and so is
--   what an item does when it is executed. Executor/Setup and Build are the constructor, Submission,
--   Stealing and Rounds the calls and a worker's loop, Queues what each queue holds, Victims whom a
--   thief turns to.
--   Executor/Submission/Offline: src/runtime/offline_group.h and .cc.
-- Online/Queue, Worker, Group: src/runtime/online_worker.h and .cc, online_group.h and .cc. A virtual call
--   of a queue is the case of its class; a static_cast to a class that the object is not of is a result of
--   its own. Moving items between queues runs on fuel, one round more than there are items is enough.
-- Policy: src/runtime/types.h, schedule_types.h, round_robin_policy.cc, strict_priority_policy.cc and
--   weighted_fair_policy.cc, and policy_factory.cc in Policy/Factory. Policy/Scan is the walk round the
--   queues that two of them share. The weighted policy computes with double; its numbers
--   are a record of operations, of whose order is used that it is transitive and irreflexive.
-- Memory: src/runtime/memory_pool.h and .cc. SizeClass, ReturnRing, FreeList, State (the record and the
--   thread caches), Blocks (the bump allocator) and Pool (allocate and deallocate). The addresses that
--   the process's allocator gives are parameters, block_at and object_at; used is that blocks do not
--   overlap and are not null. Threads are numbers, and operations do not overlap; the retries of the
--   return ring are fuel, of which one is shown to be enough. Pool/Slots and Pool/Ownership account
--   for each piece: cut once, and held by the program, a ring or a free list at most once.
-- Idle: src/runtime/adaptive_idle.h and .cc. The kernel's event descriptor is a parameter with the two
--   laws used of it; notifications may arrive before each read.
-- Feedback: src/runtime/feedback_loop.h and .cc, with the plan of dispatch_types.h and the decisions of
--   strategy_executor.h. What the decider proposes is the input of a tick;
--   Feedback/Decider: src/runtime/strategy_decider.h over a record of operations in the place of double.
-- Trace: src/runtime/trace_config.h. Errors: src/runtime/storage_error.h and .cc. Metric/Latency:
--   src/runtime/metric_histogram.h. Metric/Perf: src/runtime/perf_histogram.h and worker_perf.h.
--   Registry: src/runtime/worker_registry.h and .cc, and Registry/Ids and Later what an id leads to.
-- Examples: the theorems at concrete states.
--
-- Not modelled: overlapping operations of the lock-free rings, the deque and the pool (each operation is
-- one step there) and the memory orders of their atomics; starting and joining threads, CPU binding,
-- sockets and text output; the IO backends, which call liburing, libaio and SPDK; the
-- coroutine task types and the coroutines of co_submit and of IO polling, the capacity estimate; the scheduler's probes.
pub mod Prelude
pub mod Errors
pub mod Ring
pub mod Sync
pub mod Policy
pub mod Memory
pub mod Idle
pub mod Feedback
pub mod Trace
pub mod Metric
pub mod Registry
pub mod Work
pub mod Topology
pub mod Timer
pub mod Interface
pub mod Scheduler
pub mod Executor
pub mod Online
pub mod Examples
