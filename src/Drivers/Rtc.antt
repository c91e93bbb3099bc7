-- ===== src/Drivers/Rtc.antt =====
-- drivers/rtc.c: the date and time of the clock chip. A wait for the end of an update takes fuel:
-- `none` means that the update had not ended by then.
pub mod Reading
pub mod Tests
use hazle_os.Prelude.{
  ℕ, zero, suc, ◌+◌, ◌*◌, ◌/◌, ◌%◌, ◌^◌, Bool, true, false, not, Option, none, some, if◌then◌else◌,
  u8, u16, has_bit,
}
use hazle_os.Ports.{Ports}

-- `rtc_time_t`
pub record Time : Type 0 where
  pub second : ℕ
  pub minute : ℕ
  pub hour : ℕ
  pub day : ℕ
  pub month : ℕ
  pub year : ℕ

abbrev pub rtc_second : ℕ
rtc_second = 0x00

abbrev pub rtc_minute : ℕ
rtc_minute = 0x02

abbrev pub rtc_hour : ℕ
rtc_hour = 0x04

abbrev pub rtc_day : ℕ
rtc_day = 0x07

abbrev pub rtc_month : ℕ
rtc_month = 0x08

abbrev pub rtc_year : ℕ
rtc_year = 0x09

abbrev pub rtc_century : ℕ
rtc_century = 0x32

abbrev pub rtc_status_a : ℕ
rtc_status_a = 0x0A

abbrev pub rtc_status_b : ℕ
rtc_status_b = 0x0B

pub bcd_to_binary : ℕ → ℕ
bcd_to_binary bcd = u8 (bcd / 2 ^ 4 * 10 + bcd % 2 ^ 4)

-- `bcd_mode ? bcd_to_binary(value) : value`, where bit 2 of the status register B tells the mode.
pub decode : (status_b value : ℕ) → ℕ
unfolding bcd_to_binary
decode status_b value = if has_bit status_b 2 then value else bcd_to_binary value

module _ (P : Ports) where
  pub read_register : ℕ → Ports.State P → ℕ × Ports.State P
  read_register reg m = Ports.inb P 0x71 (Ports.outb P 0x70 reg m)

  pub is_updating : Ports.State P → Bool × Ports.State P
  is_updating m =
      let (status, read) = Ports.inb P 0x71 (Ports.outb P 0x70 rtc_status_a m) in
      (has_bit status 7, read)

  -- `while (rtc_is_updating());`
  pub wait_update : (fuel : ℕ) → Ports.State P → Option (Ports.State P)
  unfolding is_updating
  wait_update zero m = none
  wait_update (suc fuel) m =
      let (updating, read) = is_updating m in
      elim updating [ true ↦ wait_update fuel read | false ↦ some read ]

  -- The registers in the order in which they are read.
  pub read_registers : Ports.State P → Time × Ports.State P
  unfolding read_register decode
  read_registers m =
      let (second, m1) = read_register rtc_second m in
      let (minute, m2) = read_register rtc_minute m1 in
      let (hour, m3) = read_register rtc_hour m2 in
      let (day, m4) = read_register rtc_day m3 in
      let (month, m5) = read_register rtc_month m4 in
      let (year, m6) = read_register rtc_year m5 in
      let (century, m7) = read_register rtc_century m6 in
      let (status_b, m8) = read_register rtc_status_b m7 in
      (
        record {
          second = decode status_b second;
          minute = decode status_b minute;
          hour = decode status_b hour;
          day = decode status_b day;
          month = decode status_b month;
          year = u16 (decode status_b century * 100 + decode status_b year);
        },
        m8,
      )

  pub read_time : (fuel : ℕ) → Ports.State P → Option (Time × Ports.State P)
  unfolding wait_update read_registers
  read_time fuel m = elim (wait_update fuel m) [
    | none ↦ none
    | some ready ↦ some (read_registers ready)
  ]

  -- `rtc_get_second`, `rtc_get_minute`, `rtc_get_hour`, `rtc_get_day` and `rtc_get_month`.
  pub get_field : (reg fuel : ℕ) → Ports.State P → Option (ℕ × Ports.State P)
  unfolding wait_update read_register decode
  get_field reg fuel m = elim (wait_update fuel m) [
    | none ↦ none
    | some ready ↦
        let (val, m1) = read_register reg ready in
        let (status_b, m2) = read_register rtc_status_b m1 in some (decode status_b val, m2)
  ]

  pub get_year : (fuel : ℕ) → Ports.State P → Option (ℕ × Ports.State P)
  unfolding wait_update read_register decode
  get_year fuel m = elim (wait_update fuel m) [
    | none ↦ none
    | some ready ↦
        let (year, m1) = read_register rtc_year ready in
        let (century, m2) = read_register rtc_century m1 in
        let (status_b, m3) = read_register rtc_status_b m2 in
        some (u16 (decode status_b century * 100 + decode status_b year), m3)
  ]

  pub get_second : (fuel : ℕ) → Ports.State P → Option (ℕ × Ports.State P)
  unfolding get_field
  get_second fuel m = get_field rtc_second fuel m

  pub get_minute : (fuel : ℕ) → Ports.State P → Option (ℕ × Ports.State P)
  unfolding get_field
  get_minute fuel m = get_field rtc_minute fuel m

  pub get_hour : (fuel : ℕ) → Ports.State P → Option (ℕ × Ports.State P)
  unfolding get_field
  get_hour fuel m = get_field rtc_hour fuel m

  pub get_day : (fuel : ℕ) → Ports.State P → Option (ℕ × Ports.State P)
  unfolding get_field
  get_day fuel m = get_field rtc_day fuel m

  pub get_month : (fuel : ℕ) → Ports.State P → Option (ℕ × Ports.State P)
  unfolding get_field
  get_month fuel m = get_field rtc_month fuel m
