-- ===== src/FreeList.antt =====
-- The chained free list of the allocator as a stack of block numbers.
pub mod Fblk
pub mod Chain
pub mod Volume
pub mod Stack
pub mod Trace
pub mod Examples
