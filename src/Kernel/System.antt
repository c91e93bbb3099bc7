-- ===== src/Kernel/System.antt =====
-- The state of the whole system as exec.c, syscall.c and shell.c work on it: the parts' states side
-- by side, and the memory of programs.
use hazle_os.Prelude.{ℕ, ◌+◌, ◌-◌, ◌^◌, leb, ltb, ◌&&◌, if◌then◌else◌, Buffer, ℤ}
use hazle_os.Device.{BlockDevice}
use hazle_os.Ports.{Ports}
use hazle_os.Libc.{CString, string_in}
use hazle_os.Fat32.{Fs, Volume}
use hazle_os.Fat32.File.{Files}
use hazle_os.Drivers.Keyboard.{Keyboard}
use hazle_os.Drivers.Display.{Display}
use hazle_os.Drivers.Timer.{Timer}
use hazle_os.Kernel.Sysconf.{Sysconf}

pub record System (B : BlockDevice) (P : Ports) : Type 0 where
  pub fs : Fs
  pub files : Files B
  pub keyboard : Keyboard
  pub display : Display
  pub timer : Timer
  pub ports : Ports.State P
  pub config : Sysconf
  pub heap_offset : ℕ
  pub memory : Buffer
  pub last_status : ℤ
  pub last_exit_code : ℤ
  pub total_memory : ℕ
  pub used_memory : ℕ

-- The memory from an address on, as a buffer.
abbrev pub at_address : Buffer → ℕ → Buffer
at_address memory a i = memory (a + i)

-- The C string at an address.
abbrev pub string_at : Buffer → ℕ → CString
string_at memory a = string_in (2 ^ 32) a memory

-- `size` bytes of a buffer, back at their address.
abbrev pub put_back : Buffer → (a size : ℕ) → Buffer → Buffer
put_back memory a size b j = if leb a j && ltb j (a + size) then b (j - a) else memory j

module _ {B : BlockDevice} {P : Ports} where
  abbrev pub with_files : System B P → Files B → System B P
  with_files s files = record s { files = files }

  abbrev pub with_volume : System B P → Volume B → System B P
  with_volume s v = record s { files = record s.files { volume = v } }
