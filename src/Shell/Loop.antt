-- ===== src/Shell/Loop.antt =====
-- shell/shell.c: the start of the shell, its prompt, and the loop over the keys.
use hazle_os.Prelude.{
  ℕ, zero, suc, ◌-◌, Bool, true, false, Option, none, some, ltb, ◌==◌, ◌&&◌, if◌then◌else◌, codes,
}
use hazle_os.Device.{BlockDevice}
use hazle_os.Ports.{Ports}
use hazle_os.Drivers.Display.{Display, putchar, write, writeln, set_color}
use hazle_os.Drivers.Keyboard.{getchar}
use hazle_os.Kernel.Sysconf
use hazle_os.Kernel.Exec
use hazle_os.Kernel.Exec.{Program}
use hazle_os.Kernel.System.{System}
use hazle_os.Shell.Line.{Line, empty, type_key, command, shell_buffer_size}
use hazle_os.Shell.Command.{
  Outcome, returned, rebooting, halting, halted, execute_command, on_display,
}

-- The static variables of shell.c, and the system under them.
pub record Shell (B : BlockDevice) (P : Ports) : Type 0 where
  pub system : System B P
  pub line : Line
  pub shell_running : Bool

-- How the loop ends: the shell was left, a key is awaited, or the machine stops.
pub data Ending (B : BlockDevice) (P : Ports) : Type 0 where
  left : System B P → Ending B P
  awaiting : Shell B P → Ending B P
  stopped : Outcome (System B P) → Ending B P

-- What `display_putchar` shows of a key that is typed.
pub echo : (font : ℕ → ℕ → ℕ) → ℕ → Line → Display → Display
echo font c l d =
    if c == 8
    then (if ltb 0 l.buffer_pos then putchar font 8 d else d)
    else if ltb l.buffer_pos (shell_buffer_size - 1)
    then putchar font c d
    else d

module _ {B : BlockDevice} {P : Ports} (font : ℕ → ℕ → ℕ) where
  -- `shell_init`
  pub init : (rounds fuel : ℕ) → Shell B P → Option (Shell B P)
  init rounds fuel sh =
      let s = Exec.init sh.system in
      elim (Sysconf.load s.fs rounds fuel (Sysconf.init s.config) s.files) [
        | none ↦ none
        | some ((loaded, config), files) ↦ some (record {
          system = record s { config = config; files = files };
          line = empty sh.line;
          shell_running = true;
        })
      ]

  pub print_prompt : System B P → System B P
  print_prompt s =
      on_display
        (λ d.
          let d1 = write font (codes "hazle") (set_color 10 0 d) in
          let d2 = write font (codes "@") (set_color 15 0 d1) in
          let d3 = write font (codes "os") (set_color 9 0 d2) in
          let d4 = write font (codes ":") (set_color 11 0 d3) in
          let d5 = set_color 15 0 (write font s.fs.current_path d4) in
          set_color s.config.default_fg s.config.default_bg (write font (codes "$ ") d5))
        s

  -- The return key; the second result is how the machine stops, if it does.
  pub enter :
      Program B P → (fuel : ℕ) → Shell B P → Option (Option (Outcome (System B P)) × Shell B P)
  unfolding print_prompt
  enter program fuel sh =
      let shown = on_display (putchar font 10) sh.system in
      elim (execute_command font program fuel (command sh.line) shown) [
        | none ↦ none
        | some (running, returned code s) ↦
            let going_on = sh.shell_running && running in
            some (
              none,
              record {
                system = if going_on then print_prompt s else s;
                line = empty sh.line;
                shell_running = going_on;
              },
            )
        | some (running, rebooting s) ↦ some (some (rebooting s), sh)
        | some (running, halting target s) ↦ some (some (halting target s), sh)
        | some (running, halted s) ↦ some (some (halted s), sh)
      ]

  -- A key other than return.
  pub type_in : ℕ → Shell B P → Shell B P
  unfolding echo
  type_in c sh = record sh {
    line = type_key c sh.line;
    system = on_display (echo font c sh.line) sh.system;
  }

  -- `while (shell_running)`, for at most `rounds` keys.
  pub loop : Program B P → (rounds fuel : ℕ) → Shell B P → Option (Ending B P)
  unfolding enter type_in
  loop program zero fuel sh = none
  loop program (suc rounds) fuel sh = elim sh.shell_running [
    | false ↦ some (left (on_display (writeln font (codes "shell exited")) sh.system))
    | true ↦ elim (getchar sh.system.keyboard) [
      | none ↦ some (awaiting sh)
      | some (c, k) ↦
          let got = record sh { system = record sh.system { keyboard = k } } in
          elim (c == 10) [
            | false ↦ loop program rounds fuel (type_in c got)
            | true ↦ elim (enter program fuel got) [
              | none ↦ none
              | some (some o, sh') ↦ some (stopped o)
              | some (none, sh') ↦ loop program rounds fuel sh'
            ]
          ]
    ]
  ]

  pub run : Program B P → (rounds fuel : ℕ) → Shell B P → Option (Ending B P)
  unfolding print_prompt loop
  run program rounds fuel sh =
      loop program rounds fuel (record sh { system = print_prompt sh.system })
