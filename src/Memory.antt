-- ===== src/Memory.antt =====
-- kernel/memory: the physical page allocator.
pub mod Pmm
pub mod Heap
pub mod Swap
