-- ===== src/Kernel/Syscall.antt =====
-- kernel/syscall.c: the calls of programs, by their numbers. An argument is a number of 32 bits; a
-- pointer is an address in the memory of the system.
pub mod Files
pub mod Console
pub mod Dispatch
pub mod Tests
use hazle_os.Prelude.{ℤ, pos}
use hazle_os.Device.{BlockDevice}
use hazle_os.Ports.{Ports}
use hazle_os.Kernel.System.{System}

module _ {B : BlockDevice} {P : Ports} where
  -- `syscall_init`
  pub init : System B P → System B P
  init s = record s { last_exit_code = pos 0 }
