-- ===== src/Kernel/Syscall/Console.antt =====
-- kernel/syscall.c: the calls on the console, the clock, the speaker and the system's figures.
use hazle_os.Prelude.{
  ℕ, zero, suc, ◌+◌, Bool, true, false, ◌||◌, Option, none, some, ◌==◌, Buffer, update, set16, u8,
  ℤ, pos, negsuc, signed32,
}
use hazle_os.Device.{BlockDevice}
use hazle_os.Ports.{Ports}
use hazle_os.Drivers.Keyboard.{Keyboard, getchar}
use hazle_os.Drivers.Display.{Display, putchar, writeln, set_color, clear}
use hazle_os.Drivers.Rtc.{Time, read_time}
use hazle_os.Drivers.Speaker.{beep}
use hazle_os.Drivers.Timer.{get_ticks}
use hazle_os.Kernel.Exec.{exit}
use hazle_os.Kernel.System.{System, string_at}
use hazle_os.Kernel.Syscall.Files.{read_memory, write_memory, put_if}

-- The times that a loop `for (int i = 0; i < size; i++)` runs.
abbrev pub rounds_of : ℤ → ℕ
rounds_of (pos n) = n
rounds_of (negsuc n) = 0

-- `int == n`
abbrev pub is_int : ℤ → ℕ → Bool
is_int (pos m) n = m == n
is_int (negsuc m) n = false

-- `rtc_time_t` at an address: five bytes and, aligned, the year.
pub put_time : Buffer → (a : ℕ) → Time → Buffer
put_time m a t =
    let m1 = update (update m a t.second) (a + 1) t.minute in
    let m2 = update (update m1 (a + 2) t.hour) (a + 3) t.day in
    set16 (update m2 (a + 4) t.month) (a + 6) t.year

-- The loop of `sys_write` on the console, with `n` characters left.
pub put_chars : (font : ℕ → ℕ → ℕ) (n a : ℕ) → Buffer → Display → Display
put_chars font zero a m d = d
put_chars font (suc n) a m d = put_chars font n (a + 1) m (putchar font (m a) d)

-- What the loop of `sys_read` on the keyboard has read, with `n` characters left.
pub get_chars : (n done a : ℕ) → Buffer → Keyboard → Option (Option ℕ × Buffer × Keyboard)
get_chars zero done a m k = some (none, m, k)
get_chars (suc n) done a m k = elim (getchar k) [
  | none ↦ none
  | some (c, k') ↦ elim (c == 10) [
    | true ↦ some (some (done + 1), update m a c, k')
    | false ↦ get_chars n (done + 1) (a + 1) (update m a c) k'
  ]
]

module _ {B : BlockDevice} {P : Ports} where
  pub sys_exit : (code : ℤ) → System B P → ℤ × System B P
  sys_exit code s = (code, exit code (record s { last_exit_code = code }))

  -- `fd` 1 and 2 are the console; `size` is the argument as it was passed.
  unfoldable pub sys_write :
      (font : ℕ → ℕ → ℕ) (fuel : ℕ) (fd : ℤ) (buf size : ℕ) → System B P → Option (ℤ × System B P)
  unfolding put_chars
  sys_write font fuel fd buf size s = elim (is_int fd 1 || is_int fd 2) [
    | true ↦ some (
      signed32 size,
      record s { display = put_chars font (rounds_of (signed32 size)) buf s.memory s.display },
    )
    | false ↦ write_memory fuel fd buf size s
  ]

  -- `fd` 0 is the keyboard; `none` is the wait for a key, or the fuel that ran out.
  unfoldable pub sys_read :
      (fuel : ℕ) (fd : ℤ) (buf size : ℕ) → System B P → Option (ℤ × System B P)
  unfolding get_chars
  sys_read fuel fd buf size s = elim (is_int fd 0) [
    | true ↦ elim (get_chars (rounds_of (signed32 size)) 0 buf s.memory s.keyboard) [
      | none ↦ none
      | some (none, m, k) ↦ some (signed32 size, record s { memory = m; keyboard = k })
      | some (some n, m, k) ↦ some (pos n, record s { memory = m; keyboard = k })
    ]
    | false ↦ read_memory fuel fd buf size s
  ]

  pub sys_getchar : System B P → Option (ℤ × System B P)
  sys_getchar s = elim (getchar s.keyboard) [
    | none ↦ none
    | some (c, k) ↦ some (pos c, record s { keyboard = k })
  ]

  pub sys_putchar : (font : ℕ → ℕ → ℕ) (c : ℕ) → System B P → ℤ × System B P
  sys_putchar font c s = (signed32 c, record s { display = putchar font (u8 c) s.display })

  pub sys_puts : (font : ℕ → ℕ → ℕ) (str : ℕ) → System B P → ℤ × System B P
  sys_puts font str s =
      (pos 0, record s { display = writeln font (string_at s.memory str) s.display })

  pub sys_gettime : (fuel time_ptr : ℕ) → System B P → Option (ℤ × System B P)
  unfolding put_time
  sys_gettime fuel time_ptr s = elim (time_ptr == 0) [
    | true ↦ some (pos 0, s)
    | false ↦ elim (read_time P fuel s.ports) [
      | none ↦ none
      | some (t, m) ↦ some (pos 0, record s { ports = m; memory = put_time s.memory time_ptr t })
    ]
  ]

  pub sys_getticks : System B P → ℤ × System B P
  sys_getticks s = (signed32 (get_ticks s.timer), s)

  pub sys_setcolor : (fg bg : ℕ) → System B P → ℤ × System B P
  sys_setcolor fg bg s = (pos 0, record s { display = set_color fg bg s.display })

  pub sys_clear : System B P → ℤ × System B P
  sys_clear s = (pos 0, record s { display = clear s.display })

  pub sys_beep : (freq duration : ℕ) → System B P → ℤ × System B P
  sys_beep freq duration s = (pos 0, record s { ports = beep P freq duration s.ports })

  pub sys_getmem : (total used : ℕ) → System B P → ℤ × System B P
  sys_getmem total used s = (
    pos 0,
    record s { memory = put_if (put_if s.memory total s.total_memory) used s.used_memory },
  )

  pub sys_getuptime : System B P → ℤ × System B P
  sys_getuptime s = (signed32 s.timer.uptime_seconds, s)
