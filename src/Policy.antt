-- ===== src/Policy.antt =====
-- The scheduling policies of src/runtime: what they see (schedule_types.h, types.h), and the
-- policies themselves, one module each.
pub mod Types
pub mod Scan
pub mod RoundRobin
pub mod StrictPriority
pub mod WeightedFair
pub mod Factory
