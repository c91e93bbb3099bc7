-- ===== src/Drivers/Timer/Tests.antt =====
-- The timer at a concrete number of ticks.
use hazle_os.Prelude.{◌/◌, ◌≡◌, refl, arith}
use hazle_os.Drivers.Timer.{Timer, timer_frequency, get_ticks}
use hazle_os.Drivers.Timer.Uptime.{interrupts, interrupts-uptime}

abbrev started : Timer
started = record { timer_ticks = 0; uptime_seconds = 0 }

interrupts-uptime_example :
    (get_ticks (interrupts 250 started) ≡ 250)
    × ((interrupts 250 started).uptime_seconds ≡ 250 / timer_frequency)
interrupts-uptime_example = interrupts-uptime 250 started refl refl (omega arith)
