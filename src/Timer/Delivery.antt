-- ===== src/Timer/Delivery.antt =====
-- Where a coroutine that sleeps is resumed: await_suspend, the wheel and the thread's loop in timer.cc.
use mathlib.Core.Path.{subst}
use mathlib.Core.HLevel.{⊥_prop}
use mathlib.Core.Logic.{∥∥₁_elim, inl, inr, ⊎_elim}
use mathlib.Core.List.{
  Mem, Mem-prop, mem-cons_self, mem-cons_of_mem, mem-map_of_mem, mem-append, not-mem-nil,
  eq-or-mem_of_mem-cons,
}
use mathlib.Core.List.Perm.{mem_iff}
use storage_engine.Prelude.{
  ℕ, ◌+◌, ◌≤◌, ◌<◌, ◌≡◌, refl, sym, ap, ◌∙◌, none, List, [], ◌∷◌, ◌++◌, map, length, All, arith,
  ltb, Bool-cases, size_max, ◌==◌, not, if◌then◌else◌, word,
}
use storage_engine.Registry.{
  WorkerRegistry, offline, get_global_id_for_offline, register_offline_worker,
}
use storage_engine.Registry.Ids.{offline_worker-Registered}
use storage_engine.Registry.Later.{Registration, register_all, OtherThan, register_all-Registered}
use storage_engine.Timer.{
  TimerNode, OfflineTimerWheel, next_deadline, expiring, expire, insert, thread_step, inserted,
  stepped, timer_event, timer_run, executor, in_wheel, await_suspend, pushed, resume_expired,
}
use storage_engine.Timer.Expiry.{expire-Expired}

-- A node that is due is not among those that stay.
not_late :
    (now : ℕ) (n : TimerNode) (nodes : List TimerNode)
    → n.deadline ≤ now
    → All (λ m. now < m.deadline) nodes
    → ¬ Mem n nodes
not_late now n [] due late m = not-mem-nil m
not_late now n (x ∷ nodes) due (here, late) m = ∥∥₁_elim (eq-or-mem_of_mem-cons m) ⊥_prop (
    ⊎_elim (λ e. absurd (omega (arith, due, here, ap (λ t. t.deadline) e)))
      (not_late now n nodes due late))

expire-Mem :
    (now : ℕ) (n : TimerNode) (pending : List TimerNode)
    → n.deadline ≤ now
    → Mem n pending
    → Mem n (expire now pending).0
expire-Mem now n pending due m =
    let (same, ordered, early, late) = expire-Expired now pending in
    ∥∥₁_elim (mem-append.0 ((mem_iff same).0 m)) Mem-prop
      (⊎_elim (λ out. out) (λ left. absurd (not_late now n (expire now pending).1 due late left)))

-- An insertion puts the node into the wheel and leaves the thread where it is.
inserted_node :
    (n : TimerNode) (w : OfflineTimerWheel)
    → ((insert n w).pending ≡ n ∷ w.pending) × ((insert n w).thread ≡ w.thread)
unfolding insert
inserted_node n w =
    elim (Bool-cases (ltb (next_deadline (n ∷ w.pending)) (next_deadline w.pending))) [
      | inl e ↦ rw (insert, e) (refl, refl)
      | inr e ↦ rw (insert, e) (refl, refl)
    ]

expired_later :
    (n : TimerNode) (more : List TimerNode) (now : ℕ) (w : OfflineTimerWheel)
    → n.deadline ≤ now
    → w.thread ≡ expiring
    → Mem n w.pending
    → Mem n (timer_run (map inserted more ++ (stepped now ∷ [])) w).expired
unfolding timer_event thread_step
expired_later n [] now w due e m =
    let out : (thread_step now w).expired ≡ (expire now w.pending).0 = rw (thread_step, e) refl in
    subst (Mem n) (sym out) (expire-Mem now n w.pending due m)
expired_later n (x ∷ more) now w due e m =
    let (held, thread) = inserted_node x w in
    expired_later n more now (insert x w) due (thread ∙ e)
      (subst (Mem n) (sym held) (mem-cons_of_mem x m))

-- A worker of an executor is registered, others are registered, and a coroutine on it sleeps, without a
-- callback: it goes to the wheel with the deadline it asked for. More timers are inserted and more
-- workers registered before the thread of the wheel, which is about to expire what is due, does so at
-- the deadline or later: among what it resumes is the coroutine's handle, for that same worker. Provided
-- that the later registrations take their ids from the counter, which does not wrap, and that none is
-- the worker's own again.
pub sleeper_resumed_at_home :
    (exec worker_id node tls_source handle : ℕ) (n : TimerNode) (r0 : WorkerRegistry)
    (before after : List Registration) (more : List TimerNode) (now : ℕ) (w : OfflineTimerWheel)
    → n.on_expire ≡ none
    → All (OtherThan (record { exec = exec; local_id = worker_id })) before
    → All (OtherThan (record { exec = exec; local_id = worker_id })) after
    → r0.next_global_id + 1 + length before + length after < word
    → n.deadline ≤ now
    → w.thread ≡ expiring
    → let r = register_all before (register_offline_worker exec worker_id node r0).1 in
      (n' : TimerNode) × (await_suspend r (executor exec worker_id) tls_source handle n
        ≡ in_wheel n')
      × (n'.deadline ≡ n.deadline)
      × Mem (pushed (offline exec worker_id) handle) (
          map
            (resume_expired (register_all after r))
            (timer_run (inserted n' ∷ (map inserted more ++ (stepped now ∷ []))) w).expired)
unfolding await_suspend resume_expired register_offline_worker timer_event
sleeper_resumed_at_home exec worker_id node tls_source handle n r0 before after more now w plain
      others others' room due e =
    let r1 = (register_offline_worker exec worker_id node r0).1 in
    let r = register_all before r1 in
    let gid = r0.next_global_id in
    let next : r1.next_global_id ≡ gid + 1 = omega (arith, room) in
    let (known, below, count) =
      register_all-Registered before exec worker_id gid r1
        (offline_worker-Registered exec worker_id node r0).0 others (omega (arith, next))
        (omega (arith, next, room)) in
    let (still, below', count') =
      register_all-Registered after exec worker_id gid r known others' below
        (omega (arith, next, count, room)) in
    let n' : TimerNode = record n {
      handle = handle;
      source_queue_idx = if not (tls_source == size_max) then tls_source else size_max;
      source_worker_id = get_global_id_for_offline r exec worker_id;
    } in
    let home : resume_expired (register_all after r) n' ≡ pushed (offline exec worker_id) handle =
      rw (resume_expired, plain, known.known, still.leads) refl in
    let (held, thread) = inserted_node n' w in
    (
      n',
      refl,
      refl,
      subst
          (λ x. Mem x (
            map (resume_expired (register_all after r))
              (timer_run (inserted n' ∷ (map inserted more ++ (stepped now ∷ []))) w).expired))
          home
          (mem-map_of_mem (resume_expired (register_all after r)) (
            expired_later n' more now (insert n' w) due (thread ∙ e)
              (subst (Mem n') (sym held) mem-cons_self))),
    )
