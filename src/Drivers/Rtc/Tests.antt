-- ===== src/Drivers/Rtc/Tests.antt =====
-- A clock chip in memory, and a date read from it.
use hazle_os.Prelude.{ℕ, ◌-◌, ◌≡◌, refl, some, ltb, ◌==◌, if◌then◌else◌, arith}
use hazle_os.Ports.{Ports}
use hazle_os.Drivers.Rtc.{Time, read_time, read_registers, is_updating, read_register, rtc_status_a}
use hazle_os.Drivers.Rtc.Reading.{Clock, Shows, IsTime, read_time-Shows}

-- 23:59:58 on 31 December 1999, in decimal digits.
abbrev registers : ℕ → ℕ
registers reg =
    if reg == 0x00
    then 0x58
    else if reg == 0x02
    then 0x59
    else if reg == 0x04
    then 0x23
    else if reg == 0x07
    then 0x31
    else if reg == 0x08
    then 0x12
    else if reg == 0x09
    then 0x99
    else if reg == 0x32
    then 0x19
    else 0

-- The register that is selected, and the polls that the update still lasts.
abbrev chip : Ports
chip = record {
  State = ℕ × ℕ;
  inb = λ port m.
      if m.0 == rtc_status_a
      then (if ltb 0 m.1 then 128 else 0, (m.0, m.1 - 1))
      else (registers m.0, m);
  outb = λ port value m. if port == 0x70 then (value, m.1) else m;
  inw = λ port m. (0, m);
  outw = λ port value m. m;
}

chip-Clock : Clock chip
unfolding is_updating read_register
chip-Clock = record {
  register = λ m. registers;
  update_left = λ m. m.1;
  updating = λ m. ground arith;
  polled = λ m. refl;
  value = λ reg m ne. ground arith;
  still = λ reg m idle. ground arith;
  kept = λ reg m idle. refl;
}

read_time-Shows_example :
    (ready : ℕ × ℕ) × (ready.1 ≡ 0)
    × (read_time chip 5 (0, 3) ≡ some (read_registers chip ready))
    × ((t : Time) → IsTime t → Shows registers t → (read_registers chip ready).0 ≡ t)
unfolding chip-Clock
read_time-Shows_example = read_time-Shows chip chip-Clock 5 (0, 3) (omega arith)

abbrev last_second : Time
last_second = record { second = 58; minute = 59; hour = 23; day = 31; month = 12; year = 1999 }

last_second-Shows : Shows registers last_second
last_second-Shows = record {
  second_shown = refl;
  minute_shown = refl;
  hour_shown = refl;
  day_shown = refl;
  month_shown = refl;
  year_shown = refl;
  century_shown = refl;
}
