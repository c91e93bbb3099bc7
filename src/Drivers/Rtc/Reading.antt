-- ===== src/Drivers/Rtc/Reading.antt =====
-- The clock chip as its documentation describes it, and what the driver reads of it.
use hazle_os.Prelude.{
  u16, ℕ, zero, suc, ◌+◌, ◌-◌, ◌*◌, ◌/◌, ◌%◌, ◌<◌, ◌≡◌, ◌≢◌, refl, sym, ap, ◌∙◌, some, ltb, arith,
  if◌then◌else◌, has_bit, Bool-cases, inl, inr, List, [], ◌∷◌,
}
use hazle_os.Ports.{Ports}
use hazle_os.Drivers.Rtc.{
  Time, decode, bcd_to_binary, is_updating, read_register, wait_update, read_registers, read_time,
  rtc_second, rtc_minute, rtc_hour, rtc_day, rtc_month, rtc_year, rtc_century, rtc_status_a,
  rtc_status_b,
}

-- What stands in the registers, and for how many reads of the status an update still lasts. The
-- registers keep their values as long as there is no update.
pub record Clock (P : Ports) : Type 0 where
  pub register : Ports.State P → ℕ → ℕ
  pub update_left : Ports.State P → ℕ
  pub updating : (m : Ports.State P) → (is_updating P m).0 ≡ ltb 0 (update_left m)
  pub polled : (m : Ports.State P) → update_left (is_updating P m).1 ≡ update_left m - 1
  pub value :
      (reg : ℕ) (m : Ports.State P)
      → reg ≢ rtc_status_a
      → (read_register P reg m).0 ≡ register m reg
  pub still :
      (reg : ℕ) (m : Ports.State P) → update_left m ≡ 0 → update_left (read_register P reg m).1 ≡ 0
  pub kept :
      (reg : ℕ) (m : Ports.State P)
      → update_left m ≡ 0
      → register (read_register P reg m).1 ≡ register m

-- The registers hold a time, in binary or as two decimal digits each.
abbrev pub encode : (status_b value : ℕ) → ℕ
encode status_b value = if has_bit status_b 2 then value else value / 10 * 16 + value % 10

pub record Shows (register : ℕ → ℕ) (t : Time) : Type 0 where
  pub second_shown : register rtc_second ≡ encode (register rtc_status_b) t.second
  pub minute_shown : register rtc_minute ≡ encode (register rtc_status_b) t.minute
  pub hour_shown : register rtc_hour ≡ encode (register rtc_status_b) t.hour
  pub day_shown : register rtc_day ≡ encode (register rtc_status_b) t.day
  pub month_shown : register rtc_month ≡ encode (register rtc_status_b) t.month
  pub year_shown : register rtc_year ≡ encode (register rtc_status_b) (t.year % 100)
  pub century_shown : register rtc_century ≡ encode (register rtc_status_b) (t.year / 100)

-- The ranges of a date.
pub record IsTime (t : Time) : Type 0 where
  pub second_inside : t.second < 60
  pub minute_inside : t.minute < 60
  pub hour_inside : t.hour < 24
  pub day_inside : t.day < 32
  pub month_inside : t.month < 13
  pub year_inside : t.year < 10000

decode-encode : (status_b value : ℕ) → value < 100 → decode status_b (encode status_b value) ≡ value
unfolding decode bcd_to_binary
decode-encode status_b value h = ground arith

module _ (P : Ports) (K : Clock P) where
  -- The wait ends as soon as the update does, with fuel for one more poll than the update lasts.
  wait_update-ready :
      (fuel : ℕ) (m : Ports.State P)
      → Clock.update_left K m < fuel
      → (ready : Ports.State P) × (wait_update P fuel m ≡ some ready)
        × (Clock.update_left K ready ≡ 0)
  unfolding wait_update
  wait_update-ready zero m h = absurd (omega arith)
  wait_update-ready (suc fuel) m h = elim (Bool-cases (is_updating P m).0) [
    | inl busy ↦
        let left = Clock.polled K m in
        let shown = sym (Clock.updating K m) ∙ busy in
        rw (busy, wait_update)
          (wait_update-ready fuel (is_updating P m).1 (ground (arith, left, shown)))
    | inr idle ↦
        let left = Clock.polled K m in
        let shown = sym (Clock.updating K m) ∙ idle in
        rw (idle, wait_update) ((is_updating P m).1, refl, ground (arith, left, shown))
  ]

  -- The state after the registers of a list have been read, in order.
  abbrev after : List ℕ → Ports.State P → Ports.State P
  after [] m = m
  after (reg ∷ regs) m = after regs (read_register P reg m).1

  after-register :
      (regs : List ℕ) (m : Ports.State P)
      → Clock.update_left K m ≡ 0
      → Clock.register K (after regs m) ≡ Clock.register K m
  after-register [] m idle = refl
  after-register (reg ∷ regs) m idle =
      after-register regs (read_register P reg m).1 (Clock.still K reg m idle)
      ∙ Clock.kept K reg m idle

  -- The next read gives what the register held at the start.
  read_after :
      (regs : List ℕ) (reg : ℕ) (m : Ports.State P)
      → Clock.update_left K m ≡ 0
      → reg ≢ rtc_status_a
      → (read_register P reg (after regs m)).0 ≡ Clock.register K m reg
  read_after regs reg m idle ne =
      Clock.value K reg (after regs m) ne ∙ ap (λ r. r reg) (after-register regs m idle)

  read_registers-time :
      (m : Ports.State P) (t : Time)
      → Clock.update_left K m ≡ 0
      → IsTime t
      → Shows (Clock.register K m) t
      → (read_registers P m).0 ≡ t
  unfolding read_registers
  read_registers-time m t idle valid shown =
      let second = read_after [] rtc_second m idle (omega arith) in
      let minute = read_after (rtc_second ∷ []) rtc_minute m idle (omega arith) in
      let hour = read_after (rtc_second ∷ rtc_minute ∷ []) rtc_hour m idle (omega arith) in
      let day = read_after (rtc_second ∷ rtc_minute ∷ rtc_hour ∷ []) rtc_day m idle (omega arith) in
      let month =
        read_after (rtc_second ∷ rtc_minute ∷ rtc_hour ∷ rtc_day ∷ []) rtc_month m idle
          (omega arith) in
      let year =
        read_after (rtc_second ∷ rtc_minute ∷ rtc_hour ∷ rtc_day ∷ rtc_month ∷ []) rtc_year m idle
          (omega arith) in
      let century =
        read_after (rtc_second ∷ rtc_minute ∷ rtc_hour ∷ rtc_day ∷ rtc_month ∷ rtc_year ∷ [])
          rtc_century m idle (omega arith) in
      let status_b =
        read_after
          (rtc_second ∷ rtc_minute ∷ rtc_hour ∷ rtc_day ∷ rtc_month ∷ rtc_year ∷ rtc_century ∷ [])
          rtc_status_b m idle (omega arith) in
      rw (second, minute, hour, day, month, year, century, status_b)
        (rw
          (
            shown.second_shown, shown.minute_shown, shown.hour_shown, shown.day_shown,
            shown.month_shown, shown.year_shown, shown.century_shown,
          )
          (rw
            (
              digits t.second (omega (arith, valid.second_inside)),
              digits t.minute (omega (arith, valid.minute_inside)),
              digits t.hour (omega (arith, valid.hour_inside)),
              digits t.day (omega (arith, valid.day_inside)),
              digits t.month (omega (arith, valid.month_inside)),
              digits (t.year % 100) (omega arith),
              digits (t.year / 100) (omega (arith, valid.year_inside)),
              whole,
            )
            refl))
    where
      digits :
          (value : ℕ)
          → value < 100
          → decode
              (Clock.register K m rtc_status_b)
              (encode (Clock.register K m rtc_status_b) value)
            ≡ value
      digits value h = decode-encode (Clock.register K m rtc_status_b) value h

      whole : u16 (t.year / 100 * 100 + t.year % 100) ≡ t.year
      whole = omega (arith, valid.year_inside)

  -- If the update of the chip lasts for fewer polls than the fuel, then `rtc_read_time` returns,
  -- and what it returns is the date that the registers show once the update has ended, where they
  -- show it in binary or in decimal digits, and the hour out of 24.
  pub read_time-Shows :
      (fuel : ℕ) (m : Ports.State P)
      → Clock.update_left K m < fuel
      → (ready : Ports.State P) × (Clock.update_left K ready ≡ 0)
        × (read_time P fuel m ≡ some (read_registers P ready))
        × ((t : Time)
            → IsTime t
            → Shows (Clock.register K ready) t
            → (read_registers P ready).0 ≡ t)
  unfolding read_time
  read_time-Shows fuel m h =
      let (ready, e, idle) = wait_update-ready fuel m h in
      (
        ready,
        idle,
        rw (e, read_time) refl,
        λ t valid shown. read_registers-time ready t idle valid shown,
      )
