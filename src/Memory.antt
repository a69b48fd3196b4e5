-- ===== src/Memory.antt =====
-- kernel/src/memory: the `Memory` trait, its page-backed implementation, virtual memory, and the
-- physical page allocator.
pub mod Interface
pub mod Pages
pub mod Kmm
pub mod Virtual
