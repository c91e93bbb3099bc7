-- ===== src/Drivers/Timer/Uptime.antt =====
-- The uptime counts the full seconds of the ticks.
use hazle_os.Prelude.{ℕ, zero, suc, ◌/◌, ◌^◌, ◌<◌, ◌≡◌, arith}
use hazle_os.Drivers.Timer.{Timer, timer_frequency, handler, get_ticks}

-- `n` interrupts of the timer.
abbrev pub interrupts : ℕ → Timer → Timer
interrupts zero t = t
interrupts (suc n) t = handler (interrupts n t)

-- After `n` ticks of a timer that started at 0, fewer than 2^32, the counter shows `n` and the
-- uptime `n / 100` seconds.
pub interrupts-uptime :
    (n : ℕ) (t : Timer)
    → t.timer_ticks ≡ 0
    → t.uptime_seconds ≡ 0
    → n < 2 ^ 32
    → (get_ticks (interrupts n t) ≡ n) × ((interrupts n t).uptime_seconds ≡ n / timer_frequency)
unfolding handler get_ticks
interrupts-uptime zero t ht hu h = (ht, hu)
interrupts-uptime (suc n) t ht hu h = ground (arith, interrupts-uptime n t ht hu)
