-- ===== src/Errors.antt =====
-- src/runtime/storage_error.h and .cc.
pub mod Modules
use storage_engine.Prelude.{ℕ, ◌/◌, ◌%◌, ◌==◌, if◌then◌else◌}

pub data StorageError : Type 0 where
  ok unknown invalid_argument timeout out_of_resource not_initialized cancelled internal_error
        not_implemented worker_start_failed worker_already_running worker_stop_timeout queue_full
        queue_overflow scheduler_stopped policy_invalid_name memory_pool_exhausted cpu_bind_failed
        io_ring_setup_failed io_ring_submit_failed io_queue_full io_invalid_fd io_backend_not_avail
        io_result_error io_aio_setup_failed io_aio_submit_failed io_aio_get_events_fail
        io_spdk_not_ready io_poll_error rpc_connection_refused rpc_connection_timeout
        rpc_protocol_error engine_not_supported engine_corruption :
      StorageError

-- The enumerators' values.
unfoldable pub code : StorageError → ℕ
code ok = 0
code unknown = 65537
code invalid_argument = 65538
code timeout = 65539
code out_of_resource = 65540
code not_initialized = 65541
code cancelled = 65542
code internal_error = 65543
code not_implemented = 65544
code worker_start_failed = 1048577
code worker_already_running = 1048578
code worker_stop_timeout = 1048579
code queue_full = 1048580
code queue_overflow = 1048581
code scheduler_stopped = 1048582
code policy_invalid_name = 1048583
code memory_pool_exhausted = 1048584
code cpu_bind_failed = 1048585
code io_ring_setup_failed = 2097153
code io_ring_submit_failed = 2097154
code io_queue_full = 2097155
code io_invalid_fd = 2097156
code io_backend_not_avail = 2097157
code io_result_error = 2097158
code io_aio_setup_failed = 2097159
code io_aio_submit_failed = 2097160
code io_aio_get_events_fail = 2097161
code io_spdk_not_ready = 2097162
code io_poll_error = 2097163
code rpc_connection_refused = 3145729
code rpc_connection_timeout = 3145730
code rpc_protocol_error = 3145731
code engine_not_supported = 4194305
code engine_corruption = 4194306

pub data ModuleName : Type 0 where
  generic_module runtime_module io_module rpc_module engine_module unknown_module : ModuleName

-- The switch over a segment.
unfoldable pub segment_name : ℕ → ModuleName
segment_name seg =
    if seg == 1
    then generic_module
    else (if seg == 16
        then runtime_module
        else (if seg == 32
            then io_module
            else (if seg == 48
                then rpc_module
                else (if seg == 64 then engine_module else unknown_module))))

-- Any 32-bit value can be asked for, as StorageErrorCategory::message does.
abbrev pub module_of_code : ℕ → ModuleName
module_of_code value = segment_name (value / 65536 % 256)

abbrev pub module_name : StorageError → ModuleName
module_name e = module_of_code (code e)
