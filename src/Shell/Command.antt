-- ===== src/Shell/Command.antt =====
-- shell/shell.c: the built-in commands, and the start of programs. `font` stands for the glyphs of
-- the display, `program` for the code of the programs.
use hazle_os.Prelude.{
  ℕ, ◌+◌, ◌-◌, ◌*◌, ◌/◌, Bool, true, false, ◌||◌, List, [], ◌∷◌, ◌++◌, Option, none, some, leb, ltb,
  ◌==◌, if◌then◌else◌, take, length, get_or, codes, u32, ℤ, pos, negsuc, signed32,
}
use hazle_os.Device.{BlockDevice}
use hazle_os.Ports.{Ports}
use hazle_os.Libc.{CString, strlen, strcmp, is_zero, strtok, tokens_from, is_digit, itoa}
use hazle_os.Fat32.Mount.{change_dir}
use hazle_os.Drivers.Display.{Display, write, writeln, set_color}
use hazle_os.Drivers.Timer.{get_ticks}
use hazle_os.Kernel.Sysconf.{get_bin_path}
use hazle_os.Kernel.Exec.{Program, run}
use hazle_os.Kernel.System.{System, with_volume}

abbrev pub max_args : ℕ
max_args = 16

-- `strcmp(s, t) == 0`
abbrev pub is_text : CString → CString → Bool
is_text s t = is_zero (strcmp s t)

-- The loop of `parse_time` over the digits, on the 32-bit pattern of `value`.
pub time_value : (value : ℕ) → CString → ℕ
time_value value [] = value
time_value value (c ∷ s) =
    time_value (if is_digit c then u32 (value * 10 + (c - b'0')) else value) s

-- The last character of the argument is its unit. The number's characters go to an array of 16.
pub parse_time : CString → ℕ
unfolding time_value
parse_time arg =
    if is_text arg (codes "now")
    then 0
    else if ltb (strlen arg) 2
    then 60
    else (let unit = get_or arg (strlen arg - 1) 0 in
        let number = time_value 0 (take (strlen arg - 1) arg) in
        let value = if number == 0 then 1 else number in
        if unit == b's'
        then value
        else if unit == b'm'
        then u32 (value * 60)
        else if unit == b'h'
        then u32 (value * 3600)
        else 60)

pub is_builtin : CString → Bool
is_builtin cmd =
    is_text cmd (codes "cd")
    || is_text cmd (codes "exit")
    || is_text cmd (codes "reboot")
    || is_text cmd (codes "shutdown")

-- `path_buf`: at most 200 characters of the directory, and the command up to index 255.
pub build_path : (bin_path cmd : CString) → CString
build_path bin_path cmd =
    let dir = take 200 bin_path in dir ++ b'/' ∷ take (255 - (length dir + 1)) cmd

-- `strtok` up to the null pointer or to 16 tokens.
pub split_args : CString → List CString
split_args cmd =
    take max_args (tokens_from (length cmd + 1) (b' ' ∷ []) (strtok (some cmd) (b' ' ∷ []) none))

-- What a command comes to: it returns with a status; the machine restarts; it halts once the ticks
-- of the timer reach a number, or at once.
pub data Outcome (S : Type 0) : Type 0 where
  returned : ℤ → S → Outcome S
  rebooting : S → Outcome S
  halting : (target : ℕ) → S → Outcome S
  halted : S → Outcome S

-- The argument after the command, if there is one.
abbrev pub argument : List CString → Option CString
argument [] = none
argument (a ∷ []) = none
argument (a ∷ b ∷ rest) = some b

-- `itoa(value, buf, 10); display_write(buf);` for the value of a 32-bit pattern.
abbrev pub decimal : ℤ → CString
decimal n = elim (itoa n 10) [ none ↦ [] | some text ↦ text ]

-- The text of the countdown.
pub countdown : (seconds : ℤ) → CString × CString
countdown (negsuc n) = (decimal (negsuc n), codes " second(s)...")
countdown (pos n) =
    if leb 3600 n
    then (decimal (pos (n / 3600)), codes " hour(s)...")
    else if leb 60 n
    then (decimal (pos (n / 60)), codes " minute(s)...")
    else (decimal (pos n), codes " second(s)...")

module _ {B : BlockDevice} {P : Ports} where
  abbrev pub on_display : (Display → Display) → System B P → System B P
  on_display f s = record s { display = f s.display }

  -- A message in red.
  abbrev pub complain : (Display → Display) → System B P → System B P
  complain message s = on_display (λ d. set_color 7 0 (message (set_color 12 0 d))) s

module _ {B : BlockDevice} {P : Ports} (font : ℕ → ℕ → ℕ) where
  pub do_reboot : System B P → Outcome (System B P)
  do_reboot s =
      let said = on_display (writeln font (codes "rebooting...")) s in
      rebooting (record said { ports = Ports.outb P 0x64 0xFE said.ports })

  pub do_shutdown : System B P → Outcome (System B P)
  do_shutdown s = halted (on_display (writeln font (codes "system halted.")) s)

  pub shutdown : List CString → System B P → Outcome (System B P)
  unfolding do_shutdown countdown parse_time
  shutdown argv s =
      let seconds : ℕ = elim (argument argv) [ none ↦ 60 | some arg ↦ parse_time arg ] in
      if seconds == 0
      then do_shutdown s
      else (let (number, unit) = countdown (signed32 seconds) in
          let said =
            on_display
              (λ d. writeln font unit (write font number (write font (codes "shutdown in ") d)))
              s in
          halting (u32 (get_ticks s.timer + u32 (seconds * 1000))) said)

  pub cd : (fuel : ℕ) → List CString → System B P → Option (Outcome (System B P))
  cd fuel argv s = elim (argument argv) [
    | none ↦ elim (change_dir fuel (codes "/") s.fs s.files.volume) [
      | none ↦ none
      | some ((ok, fs), v) ↦ some (returned (pos 0) (record (with_volume s v) { fs = fs }))
    ]
    | some dir ↦ elim (change_dir fuel dir s.fs s.files.volume) [
      | none ↦ none
      | some ((true, fs), v) ↦ some (returned (pos 0) (record (with_volume s v) { fs = fs }))
      | some ((false, fs), v) ↦ some (
          returned (pos 1) (
            complain (writeln font (codes "directory not found"))
              (record (with_volume s v) { fs = fs })))
    ]
  ]

  -- `run_builtin`, and `shell_running` after it.
  pub run_builtin :
      (fuel : ℕ) (cmd : CString) → List CString → System B P → Option (Bool × Outcome (System B P))
  unfolding cd do_reboot shutdown
  run_builtin fuel cmd argv s =
      if is_text cmd (codes "cd")
      then (elim (cd fuel argv s) [ none ↦ none | some o ↦ some (true, o) ])
      else if is_text cmd (codes "exit")
      then some (false, returned (pos 0) s)
      else if is_text cmd (codes "reboot")
      then some (true, do_reboot s)
      else if is_text cmd (codes "shutdown")
      then some (true, shutdown argv s)
      else some (true, returned (pos 127) s)

  -- The message for the result of `exec_run`.
  pub report : (cmd : CString) → ℤ → System B P → System B P
  report cmd (negsuc n) s = s
  report cmd (pos n) s =
      if n == 127
      then complain (λ d. writeln font cmd (write font (codes "command not found: ") d)) s
      else if n == 126
      then complain (λ d. writeln font cmd (write font (codes "not executable: ") d)) s
      else s

  -- `execute_command`, and `shell_running` after it.
  pub execute_command :
      Program B P → (fuel : ℕ) (cmd : CString) → System B P → Option (Bool × Outcome (System B P))
  unfolding split_args is_builtin build_path run_builtin report
  execute_command program fuel cmd s = elim (split_args cmd) [
    | [] ↦ some (true, returned (pos 0) s)
    | name ∷ args ↦ elim (is_builtin name) [
      | true ↦ run_builtin fuel name (name ∷ args) s
      | false ↦ elim (run program fuel (build_path (get_bin_path s.config) name) (name ∷ args) s) [
        | none ↦ none
        | some (result, t) ↦ some (true, returned result (report name result t))
      ]
    ]
  ]
