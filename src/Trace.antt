-- ===== src/Trace.antt =====
-- src/runtime/trace_config.h: the switches, as a state.
pub mod Sampling
use storage_engine.Prelude.{ℕ, ◌+◌, ◌%◌, ◌^◌, Bool, true, false, ◌==◌, not, if◌then◌else◌}

pub record TraceConfig : Type 0 where
  pub enabled : Bool
  pub sample_rate : ℕ
  pub next_id : ℕ

abbrev pub initial : TraceConfig
initial = record { enabled = false; sample_rate = 0; next_id = 1 }

unfoldable pub should_trace : TraceConfig → ℕ → Bool
should_trace c trace_id =
    if trace_id == 0
    then false
    else (if not c.enabled
        then false
        else (if c.sample_rate == 0
            then false
            else (if c.sample_rate == 1 then true else (trace_id % c.sample_rate == 0))))

unfoldable pub next_trace_id : TraceConfig → ℕ × TraceConfig
next_trace_id c = (c.next_id, record c { next_id = (c.next_id + 1) % 2 ^ 32 })

abbrev pub enable_all : TraceConfig → TraceConfig
enable_all c = record c { enabled = true; sample_rate = 1 }

abbrev pub disable : TraceConfig → TraceConfig
disable c = record c { enabled = false }
