-- ===== src/Virtmemory.antt =====
-- kernel/src/virtmemory.rs.
pub mod Pte
pub mod PageTable
pub mod Copy
pub mod Kvm
pub mod Uvm
mod Tests
pub mod UserSpace
mod UnmapTests
mod UvmTests
