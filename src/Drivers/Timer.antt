-- ===== src/Drivers/Timer.antt =====
-- drivers/timer.c: the tick counter and the seconds since the start.
pub mod Uptime
pub mod Tests
use hazle_os.Prelude.{ℕ, zero, suc, ◌+◌, ◌/◌, ◌%◌, ◌^◌, ◌==◌, if◌then◌else◌, u8, u32}
use hazle_os.Ports.{Ports}

abbrev pub timer_frequency : ℕ
timer_frequency = 100

-- `timer_ticks`, and `system_info.uptime_seconds`.
pub record Timer : Type 0 where
  pub timer_ticks : ℕ
  pub uptime_seconds : ℕ

module _ (P : Ports) where
  pub init : Timer → Ports.State P → Timer × Ports.State P
  init t m =
      let divisor = 1193180 / timer_frequency in
      let commanded = Ports.outb P 0x43 0x36 m in
      let low = Ports.outb P 0x40 (u8 divisor) commanded in
      (record t { timer_ticks = 0 }, Ports.outb P 0x40 (u8 (divisor / 2 ^ 8)) low)

pub handler : Timer → Timer
handler t =
    let ticks = u32 (t.timer_ticks + 1) in
    if ticks % timer_frequency == 0
    then record { timer_ticks = ticks; uptime_seconds = u32 (t.uptime_seconds + 1) }
    else record { timer_ticks = ticks; uptime_seconds = t.uptime_seconds }

pub get_ticks : Timer → ℕ
get_ticks t = t.timer_ticks
