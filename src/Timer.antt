-- ===== src/Timer.antt =====
-- src/runtime/timer.h and timer.cc: the heap of deadlines of a worker, and the wheel that the offline
-- executors share with its thread. A handle and a callback are numbers that stand for them. The
-- std::priority_queue is the list of what was pushed; of equal deadlines, whose order it leaves
-- open, the one pushed first comes out first. Each section under the mutex is one step,
-- and so is each notification, which comes after the mutex is free again.
pub mod Expiry
pub mod Thread
pub mod Delivery
use storage_engine.Prelude.{
  ℕ, zero, suc, ◌+◌, ◌-◌, ◌^◌, Bool, true, false, not, ◌&&◌, Option, none, some, List, [], ◌∷◌, ltb,
  leb, ◌==◌, if◌then◌else◌, length, size_max,
}
use storage_engine.Registry.{WorkerRegistry, WorkerHandle, get_handle, get_global_id_for_offline}

pub record TimerNode : Type 0 where
  pub deadline : ℕ
  pub source_queue_idx : ℕ
  pub source_worker_id : ℕ
  pub handle : ℕ
  pub on_expire : Option ℕ

-- TimePoint::max(), in ticks since the clock's start.
abbrev pub time_max : ℕ
time_max = 2 ^ 63 - 1

-- `pending_.top()` and what is left after `pending_.pop()`.
unfoldable pub pop_top : List TimerNode → Option (TimerNode × List TimerNode)
pop_top [] = none
pop_top (n ∷ pending) = elim (pop_top pending) [
  | none ↦ some (n, [])
  | some (top, rest) ↦
      if ltb n.deadline top.deadline then some (n, pending) else some (top, n ∷ rest)
]

-- The loop of `expire`: what it pops, and what stays. Each round pops one.
unfoldable pub expire_loop : ℕ → ℕ → List TimerNode → List TimerNode × List TimerNode
expire_loop zero now pending = ([], pending)
expire_loop (suc fuel) now pending = elim (pop_top pending) [
  | none ↦ ([], pending)
  | some (top, rest) ↦ elim (leb top.deadline now) [
    | true ↦ let (expired, left) = expire_loop fuel now rest in (top ∷ expired, left)
    | false ↦ ([], pending)
  ]
]

unfoldable pub expire : ℕ → List TimerNode → List TimerNode × List TimerNode
unfolding expire_loop
expire now pending = expire_loop (length pending) now pending

unfoldable pub next_deadline : List TimerNode → ℕ
unfolding pop_top
next_deadline pending = elim (pop_top pending) [ none ↦ time_max | some (top, rest) ↦ top.deadline ]

abbrev pub insert_node : TimerNode → List TimerNode → List TimerNode
insert_node n pending = n ∷ pending

-- Where the timer thread is: about to read `stop`, about to expire, about to sleep, asleep until a
-- deadline (or until it is notified), or at its end.
pub data TimerThread : Type 0 where
  looking expiring tired ended : TimerThread
  asleep : (until : Option ℕ) → TimerThread

pub record OfflineTimerWheel : Type 0 where
  pub pending : List TimerNode
  pub thread : TimerThread
  pub stop : Bool
  pub expired : List TimerNode
  -- How many insertions are between the end of their section and `notify_one`.
  pub owed : ℕ

-- A notification that comes while nobody waits is lost.
abbrev pub woken : TimerThread → TimerThread
woken (asleep until) = looking
woken looking = looking
woken expiring = expiring
woken tired = tired
woken ended = ended

abbrev pub notify_one : OfflineTimerWheel → OfflineTimerWheel
notify_one w = record w { thread = woken w.thread }

-- The section of `insert` under the mutex; `need_wake` leaves a notification to do.
unfoldable pub insert : TimerNode → OfflineTimerWheel → OfflineTimerWheel
unfolding next_deadline
insert n w =
    let prev_top = next_deadline w.pending in
    let w' = record w { pending = insert_node n w.pending } in
    if ltb (next_deadline w'.pending) prev_top then record w' { owed = w'.owed + 1 } else w'

-- What `insert` does behind it, if it has to wake the thread.
unfoldable pub wake_after_insert : OfflineTimerWheel → OfflineTimerWheel
wake_after_insert w = if w.owed == 0 then w else notify_one (record w { owed = w.owed - 1 })

-- `cv_.wait` or `cv_.wait_until` at the top's deadline, by what is there under the lock.
unfoldable pub sleep_until_next : OfflineTimerWheel → OfflineTimerWheel
unfolding pop_top
sleep_until_next w = record w {
  thread = elim (pop_top w.pending) [
    | none ↦ asleep none
    | some (top, rest) ↦ asleep (some top.deadline)
  ];
}

-- One step of the loop of the thread; asleep it does nothing. `expired` is what it has to resume.
unfoldable pub thread_step : ℕ → OfflineTimerWheel → OfflineTimerWheel
unfolding expire sleep_until_next
thread_step now w = elim w.thread [
  | looking ↦ record w { thread = if w.stop then ended else expiring }
  | expiring ↦
      let (out, left) = expire now w.pending in
      record w { pending = left; thread = tired; expired = out }
  | tired ↦ sleep_until_next w
  | asleep until ↦ w
  | ended ↦ w
]

-- The wait is over at its deadline.
unfoldable pub wait_over : ℕ → OfflineTimerWheel → OfflineTimerWheel
wait_over now w = elim w.thread [
  | asleep (some until) ↦ if leb until now then record w { thread = looking } else w
  | _ ↦ w
]

abbrev pub store_stop : OfflineTimerWheel → OfflineTimerWheel
store_stop w = record w { stop = true }

-- Steps of any thread, in any order: `insert` is `inserted`, then `insert_notified` if it has to wake the
-- thread, and `stop_global_timer_thread` is `stopping`, then `notified`. The kernel may also end a wait
-- for no reason.
pub data TimerEvent : Type 0 where
  inserted : TimerNode → TimerEvent
  stepped timed_out : (now : ℕ) → TimerEvent
  insert_notified stopping notified spurious : TimerEvent

unfoldable pub timer_event : TimerEvent → OfflineTimerWheel → OfflineTimerWheel
unfolding insert wake_after_insert thread_step wait_over
timer_event (inserted n) w = insert n w
timer_event (stepped now) w = thread_step now w
timer_event (timed_out now) w = wait_over now w
timer_event insert_notified w = wake_after_insert w
timer_event stopping w = store_stop w
timer_event notified w = notify_one w
timer_event spurious w = notify_one w

abbrev pub timer_run : List TimerEvent → OfflineTimerWheel → OfflineTimerWheel
timer_run [] w = w
timer_run (e ∷ events) w = timer_run events (timer_event e w)

abbrev pub started : OfflineTimerWheel
started = record { pending = []; thread = looking; stop = false; expired = []; owed = 0 }

-- What the loop does with an expired node: the callback, or the handle to the worker's affine queue,
-- or nothing when no worker has the id.
pub data Resumption : Type 0 where
  called : (callback : ℕ) → Resumption
  pushed : (worker : WorkerHandle) (handle : ℕ) → Resumption
  dropped : Resumption

unfoldable pub resume_expired : WorkerRegistry → TimerNode → Resumption
resume_expired r n = elim n.on_expire [
  | some callback ↦ called callback
  | none ↦ elim (get_handle r n.source_worker_id) [
    | some worker ↦ pushed worker n.handle
    | none ↦ dropped
  ]
]

-- The thread that awaits: an online worker's, an executor's, or neither.
pub data Context : Type 0 where
  online_worker neither : Context
  executor : (exec worker_id : ℕ) → Context

pub data Slept : Type 0 where
  in_worker in_wheel : TimerNode → Slept
  leaked : Slept

-- SleepAwaiter::await_suspend; `tls_source` is the thread's tls_source_queue_idx.
unfoldable pub await_suspend :
    WorkerRegistry → Context → (tls_source handle : ℕ) → TimerNode → Slept
await_suspend r context tls_source handle n =
    let n' = record n {
      handle = handle;
      source_queue_idx = if not (tls_source == size_max) then tls_source else size_max;
    } in
    elim context [
      | online_worker ↦ in_worker n'
      | executor exec worker_id ↦
          in_wheel (record n' { source_worker_id = get_global_id_for_offline r exec worker_id })
      | neither ↦ leaked
    ]
