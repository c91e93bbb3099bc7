-- ===== src/Kernel/Syscall/Dispatch.antt =====
-- kernel/syscall.c: `syscall_dispatch`. `none` means that the call does not return: the machine
-- restarts, a key is awaited, or the fuel ran out.
pub mod Refused
use hazle_os.Prelude.{
  ℕ, ◌-◌, ◌^◌, Bool, true, false, Option, none, some, ◌==◌, if◌then◌else◌, ℤ, pos, negsuc, neg,
  signed32, List, [], ◌∷◌, get,
}
use hazle_os.Device.{BlockDevice}
use hazle_os.Ports.{Ports}
use hazle_os.Kernel.System.{System}
use hazle_os.Kernel.Syscall.Files.{
  sys_open, sys_close, sys_readdir, sys_chdir, sys_getcwd, sys_mkdir, sys_remove, sys_create,
  sys_copy, sys_rename, sys_diskinfo,
}
use hazle_os.Kernel.Syscall.Console.{
  rounds_of, sys_exit, sys_write, sys_read, sys_getchar, sys_putchar, sys_puts, sys_gettime,
  sys_getticks, sys_setcolor, sys_clear, sys_beep, sys_getmem, sys_getuptime,
}

-- The numbers of the calls, `SYS_EXIT` = 0 to `SYS_DISKINFO` = 24.
pub data Call : Type 0 where
  call_exit call_write call_read call_open call_close : Call
  call_getchar call_putchar call_puts call_readdir call_chdir : Call
  call_getcwd call_mkdir call_remove call_gettime call_getticks : Call
  call_setcolor call_clear call_beep call_reboot call_getmem : Call
  call_getuptime call_create call_copy call_rename call_diskinfo : Call

abbrev pub calls : List Call
calls =
    call_exit ∷ call_write ∷ call_read ∷ call_open ∷ call_close ∷ call_getchar ∷ call_putchar
    ∷ call_puts ∷ call_readdir ∷ call_chdir ∷ call_getcwd ∷ call_mkdir ∷ call_remove ∷ call_gettime
    ∷ call_getticks ∷ call_setcolor ∷ call_clear ∷ call_beep ∷ call_reboot ∷ call_getmem
    ∷ call_getuptime ∷ call_create ∷ call_copy ∷ call_rename ∷ call_diskinfo ∷ []

pub call_of : ℕ → Option Call
call_of num = get calls num

module _ {B : BlockDevice} {P : Ports} (font : ℕ → ℕ → ℕ) (rounds fuel : ℕ) where
  pub serve : Call → (arg1 arg2 arg3 : ℕ) → System B P → Option (ℤ × System B P)
  serve call_exit a b c s = some (sys_exit (signed32 a) s)
  serve call_write a b c s = sys_write font fuel (signed32 a) b c s
  serve call_read a b c s = sys_read fuel (signed32 a) b c s
  serve call_open a b c s = sys_open fuel a s
  serve call_close a b c s = sys_close fuel (signed32 a) s
  serve call_getchar a b c s = sys_getchar s
  serve call_putchar a b c s = some (sys_putchar font a s)
  serve call_puts a b c s = some (sys_puts font a s)
  serve call_readdir a b c s = sys_readdir fuel a b (rounds_of (signed32 c)) s
  serve call_chdir a b c s = sys_chdir fuel a s
  serve call_getcwd a b c s = some (sys_getcwd a b s)
  serve call_mkdir a b c s = sys_mkdir fuel a s
  serve call_remove a b c s = sys_remove fuel a s
  serve call_gettime a b c s = sys_gettime fuel a s
  serve call_getticks a b c s = some (sys_getticks s)
  serve call_setcolor a b c s = some (sys_setcolor a b s)
  serve call_clear a b c s = some (sys_clear s)
  serve call_beep a b c s = some (sys_beep a b s)
  serve call_reboot a b c s = none
  serve call_getmem a b c s = some (sys_getmem a b s)
  serve call_getuptime a b c s = some (sys_getuptime s)
  serve call_create a b c s = sys_create fuel a s
  serve call_copy a b c s = sys_copy rounds fuel a b s
  serve call_rename a b c s = sys_rename fuel a b s
  serve call_diskinfo a b c s = some (sys_diskinfo a b c s)

  -- Any other number gives -1.
  pub dispatch : (num arg1 arg2 arg3 : ℕ) → System B P → Option (ℤ × System B P)
  unfolding call_of serve
  dispatch num a b c s = elim (call_of num) [
    | none ↦ some (neg 1, s)
    | some call ↦ serve call a b c s
  ]
