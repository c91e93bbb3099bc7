-- ===== src/Userlib/Calls.antt =====
-- userlib/hazle.c: the calls of the system. `syscall0` to `syscall3` set the registers of their
-- arguments only; the others, which the call does not read, are 0 here.
use hazle_os.Prelude.{ℕ, Option, none, some, ℤ}
use hazle_os.Device.{BlockDevice}
use hazle_os.Ports.{Ports}
use hazle_os.Kernel.System.{System}
use hazle_os.Kernel.Syscall.Dispatch.{dispatch}

module _ {B : BlockDevice} {P : Ports} (font : ℕ → ℕ → ℕ) (rounds fuel : ℕ) where
  abbrev pub syscall : (num a b c : ℕ) → System B P → Option (ℤ × System B P)
  syscall num a b c s = dispatch font rounds fuel num a b c s

  pub putchar : (c : ℕ) → System B P → Option (ℤ × System B P)
  putchar c s = syscall 6 c 0 0 s

  pub puts : (str : ℕ) → System B P → Option (ℤ × System B P)
  puts str s = syscall 7 str 0 0 s

  pub getchar : System B P → Option (ℤ × System B P)
  getchar s = syscall 5 0 0 0 s

  pub open_path : (path : ℕ) → System B P → Option (ℤ × System B P)
  open_path path s = syscall 3 path 0 0 s

  pub close : (fd : ℕ) → System B P → Option (ℤ × System B P)
  close fd s = syscall 4 fd 0 0 s

  pub read : (fd buf size : ℕ) → System B P → Option (ℤ × System B P)
  read fd buf size s = syscall 2 fd buf size s

  pub write : (fd buf size : ℕ) → System B P → Option (ℤ × System B P)
  write fd buf size s = syscall 1 fd buf size s

  pub chdir : (path : ℕ) → System B P → Option (ℤ × System B P)
  chdir path s = syscall 9 path 0 0 s

  pub mkdir : (path : ℕ) → System B P → Option (ℤ × System B P)
  mkdir path s = syscall 11 path 0 0 s

  pub remove : (path : ℕ) → System B P → Option (ℤ × System B P)
  remove path s = syscall 12 path 0 0 s

  pub create : (path : ℕ) → System B P → Option (ℤ × System B P)
  create path s = syscall 21 path 0 0 s

  pub copy : (src dst : ℕ) → System B P → Option (ℤ × System B P)
  copy src dst s = syscall 22 src dst 0 s

  pub rename : (old_path new_path : ℕ) → System B P → Option (ℤ × System B P)
  rename old_path new_path s = syscall 23 old_path new_path 0 s

  pub setcolor : (fg bg : ℕ) → System B P → Option (ℤ × System B P)
  setcolor fg bg s = syscall 15 fg bg 0 s

  pub clear : System B P → Option (ℤ × System B P)
  clear s = syscall 16 0 0 0 s

  pub beep : (freq duration : ℕ) → System B P → Option (ℤ × System B P)
  beep freq duration s = syscall 17 freq duration 0 s

  pub reboot : System B P → Option (ℤ × System B P)
  reboot s = syscall 18 0 0 0 s

  pub getticks : System B P → Option (ℤ × System B P)
  getticks s = syscall 14 0 0 0 s

  pub getuptime : System B P → Option (ℤ × System B P)
  getuptime s = syscall 20 0 0 0 s

  pub getmem : (total used : ℕ) → System B P → Option (ℤ × System B P)
  getmem total used s = syscall 19 total used 0 s

  pub diskinfo : (total free_space cluster_size : ℕ) → System B P → Option (ℤ × System B P)
  diskinfo total free_space cluster_size s = syscall 24 total free_space cluster_size s

  -- The result of the call is not looked at: `buf` is returned.
  pub getcwd : (buf size : ℕ) → System B P → Option (ℕ × System B P)
  getcwd buf size s = elim (syscall 10 buf size 0 s) [
    | none ↦ none
    | some (result, t) ↦ some (buf, t)
  ]
