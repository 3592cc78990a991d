-- ===== src/Errors/Modules.antt =====
-- The codes of storage_error.h tell the errors apart, and name their module.
use mathlib.Core.Path.{◌≡◌, refl}
use storage_engine.Prelude.{ℕ, Option, none, some, List, [], ◌∷◌, ◌==◌, if◌then◌else◌}
use storage_engine.Errors.{
  StorageError, code, ModuleName, segment_name, module_name, generic_module, runtime_module,
  io_module, rpc_module, engine_module, unknown_module, ok, unknown, invalid_argument, timeout,
  out_of_resource, not_initialized, cancelled, internal_error, not_implemented, worker_start_failed,
  worker_already_running, worker_stop_timeout, queue_full, queue_overflow, scheduler_stopped,
  policy_invalid_name, memory_pool_exhausted, cpu_bind_failed, io_ring_setup_failed,
  io_ring_submit_failed, io_queue_full, io_invalid_fd, io_backend_not_avail, io_result_error,
  io_aio_setup_failed, io_aio_submit_failed, io_aio_get_events_fail, io_spdk_not_ready,
  io_poll_error, rpc_connection_refused, rpc_connection_timeout, rpc_protocol_error,
  engine_not_supported, engine_corruption,
}

-- The headings under which storage_error.h lists its enumerators.
unfoldable pub heading : StorageError → ModuleName
heading ok = unknown_module
heading unknown = generic_module
heading invalid_argument = generic_module
heading timeout = generic_module
heading out_of_resource = generic_module
heading not_initialized = generic_module
heading cancelled = generic_module
heading internal_error = generic_module
heading not_implemented = generic_module
heading worker_start_failed = runtime_module
heading worker_already_running = runtime_module
heading worker_stop_timeout = runtime_module
heading queue_full = runtime_module
heading queue_overflow = runtime_module
heading scheduler_stopped = runtime_module
heading policy_invalid_name = runtime_module
heading memory_pool_exhausted = runtime_module
heading cpu_bind_failed = runtime_module
heading io_ring_setup_failed = io_module
heading io_ring_submit_failed = io_module
heading io_queue_full = io_module
heading io_invalid_fd = io_module
heading io_backend_not_avail = io_module
heading io_result_error = io_module
heading io_aio_setup_failed = io_module
heading io_aio_submit_failed = io_module
heading io_aio_get_events_fail = io_module
heading io_spdk_not_ready = io_module
heading io_poll_error = io_module
heading rpc_connection_refused = rpc_module
heading rpc_connection_timeout = rpc_module
heading rpc_protocol_error = rpc_module
heading engine_not_supported = engine_module
heading engine_corruption = engine_module

-- The first of the errors with that code.
unfoldable pub from_code : List StorageError → ℕ → Option StorageError
from_code [] value = none
from_code (e ∷ es) value = let rest = from_code es value in if code e == value then some e else rest

abbrev pub all_errors : List StorageError
all_errors =
    ok ∷ unknown ∷ invalid_argument ∷ timeout ∷ out_of_resource ∷ not_initialized ∷ cancelled
    ∷ internal_error ∷ not_implemented ∷ worker_start_failed ∷ worker_already_running
    ∷ worker_stop_timeout ∷ queue_full ∷ queue_overflow ∷ scheduler_stopped ∷ policy_invalid_name
    ∷ memory_pool_exhausted ∷ cpu_bind_failed ∷ io_ring_setup_failed ∷ io_ring_submit_failed
    ∷ io_queue_full ∷ io_invalid_fd ∷ io_backend_not_avail ∷ io_result_error ∷ io_aio_setup_failed
    ∷ io_aio_submit_failed ∷ io_aio_get_events_fail ∷ io_spdk_not_ready ∷ io_poll_error
    ∷ rpc_connection_refused ∷ rpc_connection_timeout ∷ rpc_protocol_error ∷ engine_not_supported
    ∷ engine_corruption ∷ []

-- Looking an error's code up gives that error, so no two errors share a code, and the name taken from
-- the code is that of the heading under which the error stands; only `ok` has none.
pub code_names_error :
    (e : StorageError) → (from_code all_errors (code e) ≡ some e) × (module_name e ≡ heading e)
unfolding from_code code segment_name heading
code_names_error ok = (refl, refl)
code_names_error unknown = (refl, refl)
code_names_error invalid_argument = (refl, refl)
code_names_error timeout = (refl, refl)
code_names_error out_of_resource = (refl, refl)
code_names_error not_initialized = (refl, refl)
code_names_error cancelled = (refl, refl)
code_names_error internal_error = (refl, refl)
code_names_error not_implemented = (refl, refl)
code_names_error worker_start_failed = (refl, refl)
code_names_error worker_already_running = (refl, refl)
code_names_error worker_stop_timeout = (refl, refl)
code_names_error queue_full = (refl, refl)
code_names_error queue_overflow = (refl, refl)
code_names_error scheduler_stopped = (refl, refl)
code_names_error policy_invalid_name = (refl, refl)
code_names_error memory_pool_exhausted = (refl, refl)
code_names_error cpu_bind_failed = (refl, refl)
code_names_error io_ring_setup_failed = (refl, refl)
code_names_error io_ring_submit_failed = (refl, refl)
code_names_error io_queue_full = (refl, refl)
code_names_error io_invalid_fd = (refl, refl)
code_names_error io_backend_not_avail = (refl, refl)
code_names_error io_result_error = (refl, refl)
code_names_error io_aio_setup_failed = (refl, refl)
code_names_error io_aio_submit_failed = (refl, refl)
code_names_error io_aio_get_events_fail = (refl, refl)
code_names_error io_spdk_not_ready = (refl, refl)
code_names_error io_poll_error = (refl, refl)
code_names_error rpc_connection_refused = (refl, refl)
code_names_error rpc_connection_timeout = (refl, refl)
code_names_error rpc_protocol_error = (refl, refl)
code_names_error engine_not_supported = (refl, refl)
code_names_error engine_corruption = (refl, refl)
