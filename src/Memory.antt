-- ===== src/Memory.antt =====
-- The memory pool: src/runtime/memory_pool.h and .cc.
pub mod SizeClass
pub mod ReturnRing
pub mod FreeList
pub mod Pool
pub mod State
pub mod Blocks
