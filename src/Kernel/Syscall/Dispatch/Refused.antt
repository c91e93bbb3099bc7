-- ===== src/Kernel/Syscall/Dispatch/Refused.antt =====
-- The calls that `syscall_dispatch` refuses.
use hazle_os.Prelude.{
  ℕ, ◌+◌, ◌^◌, ◌≤◌, ◌<◌, ◌≡◌, refl, ap, inl, inr, false, ◌&&◌, leb, ltb, Bool-cases, arith, none,
  some, Buffer, pos, neg, signed32, fun_ext, get_past,
}
use hazle_os.Device.{BlockDevice}
use hazle_os.Ports.{Ports}
use hazle_os.Fat32.File.{lookup}
use hazle_os.Fat32.File.Calls.{read, write}
use hazle_os.Fat32.File.Calls.Checked.{lookup-IsRefused}
use hazle_os.Kernel.System.{System, at_address, put_back}
use hazle_os.Kernel.Syscall.Files.{read_memory, write_memory, sys_close}
use hazle_os.Kernel.Syscall.Console.{is_int, sys_read, sys_write}
use hazle_os.Kernel.Syscall.Dispatch.{calls, call_of, serve, dispatch}

put_back_same : (memory : Buffer) (a n : ℕ) → put_back memory a n (at_address memory a) ≡ memory
put_back_same memory a n = fun_ext (λ j. elim (Bool-cases (leb a j && ltb j (a + n))) [
  | inl inside ↦ rw inside (ap memory (ground arith))
  | inr outside ↦ rw outside refl
])

-- A descriptor of 3 or more is none of the console's.
no_console : (fd k : ℕ) → 3 ≤ fd → k < 3 → is_int (signed32 fd) k ≡ false
no_console fd k h small = elim (Bool-cases (ltb fd (2 ^ 31))) [
  | inl positive ↦ rw positive (ground arith)
  | inr negative ↦ rw negative refl
]

module _ {B : BlockDevice} {P : Ports} (font : ℕ → ℕ → ℕ) (rounds fuel : ℕ) where
  write-refused :
      (fd buf n : ℕ) (s : System B P)
      → 3 ≤ fd
      → write s.fs fuel (signed32 fd) (at_address s.memory buf) n s.files ≡ some (neg 1, s.files)
      → sys_write font fuel (signed32 fd) buf n s ≡ some (neg 1, s)
  unfolding sys_write write_memory
  write-refused fd buf n s high writes =
      rw (no_console fd 1 high (omega arith), no_console fd 2 high (omega arith), sys_write)
        (rw (writes, write_memory) refl)

  read-refused :
      (fd buf n : ℕ) (s : System B P)
      → 3 ≤ fd
      → read s.fs fuel (signed32 fd) (at_address s.memory buf) n s.files
        ≡ some ((neg 1, at_address s.memory buf), s.files)
      → sys_read fuel (signed32 fd) buf n s ≡ some (neg 1, s)
  unfolding sys_read read_memory
  read-refused fd buf n s high reads =
      rw (no_console fd 0 high (omega arith), sys_read)
        (rw (reads, read_memory)
          (ap (λ m. some (neg 1, record s { memory = m })) (put_back_same s.memory buf n)))

  -- A call with an unknown number returns -1 and changes nothing. So do `write` and `read` with a
  -- descriptor that is neither the console's nor open, whatever the buffer; `close` returns 0 then,
  -- and changes nothing either.
  pub dispatch-refused :
      (num fd buf n : ℕ) (s : System B P)
      → 25 ≤ num
      → 3 ≤ fd
      → lookup (signed32 fd) s.files.open_files ≡ none
      → (dispatch font rounds fuel num fd buf n s ≡ some (neg 1, s))
        × (dispatch font rounds fuel 1 fd buf n s ≡ some (neg 1, s))
        × (dispatch font rounds fuel 2 fd buf n s ≡ some (neg 1, s))
        × (dispatch font rounds fuel 4 fd buf n s ≡ some (pos 0, s))
  unfolding dispatch call_of serve sys_close
  dispatch-refused num fd buf n s unknown high refused =
      let past : call_of num ≡ none = get_past calls num unknown in
      let b = at_address s.memory buf in
      let out = lookup-IsRefused s.fs fuel (signed32 fd) b n 0 s.files refused in
      (
        rw past refl,
        write-refused fd buf n s high out.write_refused,
        read-refused fd buf n s high out.read_refused,
        rw (out.close_refused, sys_close) refl,
      )
