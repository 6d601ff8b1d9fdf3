-- ===== src/Memory.antt =====
-- The memory manager: src/memory.
pub mod Tags
pub mod Mmap
pub mod Paging
pub mod Heap
pub mod Pmm
