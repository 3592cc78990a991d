-- ===== src/Examples/Loops.antt =====
-- The feedback loop, the trace switches, the error codes, the latency histogram
-- and the registry of workers at concrete states.
use storage_engine.Prelude.{
  ℕ, ◌≢◌, size_max, none, ◌≡◌, true, false, Option, some, List, [], ◌∷◌, arith,
}
use storage_engine.Feedback.{
  DispatchPlan, dispatch_single, EngineQueue, direct_queue, Sample, bind_workers, make, tick,
}
use storage_engine.Feedback.Debounce.{switch_needs-Streak, run, heard, Streak}
use storage_engine.Errors.{io_poll_error, code, module_name}
use storage_engine.Errors.Modules.{code_names_error, from_code, all_errors, heading}
use storage_engine.Registry.{
  WorkerRegistry, empty_registry, register_offline_worker, remove_executor,
  get_global_id_for_offline, get_handle, find,
}
use storage_engine.Registry.Removal.{executor_removed}

abbrev one_dispatcher : DispatchPlan
one_dispatcher = record {
  strategy = dispatch_single;
  direct_workers = 1;
  dispatch_threads = 1;
  consumers_per_dispatch = 1;
}

-- Always the same proposal.
abbrev insistent : Sample
insistent = record { too_short = false; decide = λ plan. some one_dispatcher }

abbrev two_workers : Option (List EngineQueue)
two_workers = some (direct_queue ∷ direct_queue ∷ [])

abbrev before : List Sample
before = insistent ∷ insistent ∷ []

switch_needs-Streak_example :
    ((tick insistent (run before (bind_workers two_workers (make 3)) []).0).0 ≡ true
      → Streak
          (tick insistent (run before (bind_workers two_workers (make 3)) []).0).1.current_plan
          3
          (heard insistent
            (run before (bind_workers two_workers (make 3)) []).0
            (run before (bind_workers two_workers (make 3)) []).1))
    × ((tick insistent (run before (bind_workers two_workers (make 3)) []).0).0 ≡ false
        → (tick insistent (run before (bind_workers two_workers (make 3)) []).0).1.current_plan
          ≡ (run before (bind_workers two_workers (make 3)) []).0.current_plan)
switch_needs-Streak_example = switch_needs-Streak 3 two_workers before insistent (omega arith)

code_names_error_example :
    (from_code all_errors (code io_poll_error) ≡ some io_poll_error)
    × (module_name io_poll_error ≡ heading io_poll_error)
code_names_error_example = code_names_error io_poll_error

-- Executor 7 with two workers, executor 8 with one.
abbrev crew : WorkerRegistry
crew =
    (register_offline_worker 7 1 0
      (register_offline_worker 8 0 1 (register_offline_worker 7 0 0 empty_registry).1).1).1

executor_removed_example :
    ((local_id : ℕ) → get_global_id_for_offline (remove_executor 7 crew) 7 local_id ≡ size_max)
    × ((local_id gid : ℕ)
        → find (record { exec = 7; local_id = local_id }) crew.offline_global_id ≡ some gid
        → get_handle (remove_executor 7 crew) gid ≡ none)
    × ((other local_id : ℕ)
        → 7 ≢ other
        → get_global_id_for_offline (remove_executor 7 crew) other local_id
          ≡ get_global_id_for_offline crew other local_id)
executor_removed_example = executor_removed 7 crew
