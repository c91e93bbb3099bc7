-- ===== src/Drivers/Speaker.antt =====
-- drivers/speaker.c: the tone of the second channel of the interval timer.
use hazle_os.Prelude.{ℕ, ◌/◌, ◌%◌, ◌+◌, ◌-◌, ◌^◌, ltb, ◌==◌, if◌then◌else◌, u8}
use hazle_os.Ports.{Ports}

-- `tmp | 3`
abbrev pub with_gate : ℕ → ℕ
with_gate tmp = tmp - tmp % 4 + 3

module _ (P : Ports) where
  -- `tmp & 0xFC`
  pub stop : Ports.State P → Ports.State P
  stop m = let (tmp, read) = Ports.inb P 0x61 m in Ports.outb P 0x61 (tmp - tmp % 4) read

  pub play_tone : (frequency : ℕ) → Ports.State P → Ports.State P
  unfolding stop
  play_tone frequency m =
      if ltb frequency 20
      then stop m
      else (let divisor = 1193180 / frequency in
          let commanded = Ports.outb P 0x43 0xB6 m in
          let low = Ports.outb P 0x42 (u8 divisor) commanded in
          let (tmp, read) = Ports.inb P 0x61 (Ports.outb P 0x42 (u8 (divisor / 2 ^ 8)) low) in
          if tmp == with_gate tmp then read else Ports.outb P 0x61 (with_gate tmp) read)

  -- The waiting loop between the two calls changes no state.
  pub beep : (frequency duration_ms : ℕ) → Ports.State P → Ports.State P
  unfolding play_tone stop
  beep frequency duration_ms m = stop (play_tone frequency m)

  pub init : Ports.State P → Ports.State P
  unfolding stop
  init m = stop m
