-- ===== src/Metric.antt =====
-- The measuring of src/runtime: its children say which part each models.
pub mod Latency
pub mod Perf
