-- ===== src/Kernel.antt =====
-- The parts of kernel/.
pub mod Heap
pub mod Elf
pub mod Sysconf
pub mod System
pub mod Exec
pub mod Syscall
