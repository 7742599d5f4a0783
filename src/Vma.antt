-- ===== src/Vma.antt =====
-- The virtual memory areas of a process, kernel/src/vma.rs.
pub mod StoragePage
pub mod Node
pub mod Storage
pub mod Tree
pub mod Allocator
mod Examples
