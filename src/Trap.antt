-- ===== src/Trap.antt =====
-- Entering and leaving the kernel, and changing from one kernel thread to another.
pub mod Trampoline
pub mod Frame
pub mod Kernelvec
pub mod Switch
pub mod Kerneltrap
pub mod User
mod Tests
