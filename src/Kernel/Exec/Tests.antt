-- ===== src/Kernel/Exec/Tests.antt =====
-- A system on the small volume, and a program that returns at once.
use hazle_os.Prelude.{ℕ, refl, some, [], ◌∷◌, blank, pos, codes, false}
use hazle_os.Ports.{Ports}
use hazle_os.Fat32.Tests.{ram, small_fs}
use hazle_os.Fat32.File.Calls.Descriptors.{in_use}
use hazle_os.Drivers.Display.Tests.{small_display}
use hazle_os.Kernel.Sysconf.Tests.{cleared, no_files}
use hazle_os.Kernel.System.{System}
use hazle_os.Kernel.Exec.{Program, run}
use hazle_os.Kernel.Exec.Closing.{Leaves, run-Leaves}

-- Ports without a device.
abbrev pub no_device : Ports
no_device = record {
  State = ℕ;
  inb = λ port m. (0, m);
  outb = λ port value m. m;
  inw = λ port m. (0, m);
  outw = λ port value m. m;
}

abbrev pub small_system : System ram no_device
small_system = record {
  fs = small_fs;
  files = no_files;
  keyboard = record {
    keyboard_buffer = λ i. b'a';
    buffer_start = 0;
    buffer_end = 2;
    shift_pressed = false;
  };
  display = small_display;
  timer = record { timer_ticks = 7; uptime_seconds = 0 };
  ports = 0;
  config = cleared;
  heap_offset = 0;
  memory = blank;
  last_status = pos 0;
  last_exit_code = pos 0;
  total_memory = 0;
  used_memory = 0;
}

abbrev pub idle_program : Program ram no_device
idle_program entry argv s = some (pos 0, s)

run-Leaves_example :
    Leaves (in_use no_files) (run idle_program 9 (codes "/bin/ls") (codes "ls" ∷ []) small_system)
run-Leaves_example =
    run-Leaves idle_program (λ entry argv s i. refl) 9 (codes "/bin/ls") (codes "ls" ∷ [])
      small_system
