-- ===== src/Examples.antt =====
-- The theorems at concrete states of src/runtime's components.
mod Rings
mod Primitives
mod Policies
mod Pools
mod Loops
mod Timers
mod Executors
mod Schedulers
mod Onlines
mod Deciders
