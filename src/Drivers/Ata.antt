-- ===== src/Drivers/Ata.antt =====
-- drivers/ata.c: the disk driver, which moves the data word by word through the ports. Every loop
-- that waits for the disk counts a timeout down.
pub mod Identify
pub mod Flush
pub mod Transfer
pub mod Tests
use hazle_os.Prelude.{
  ℕ, zero, suc, ◌+◌, ◌*◌, ◌/◌, ◌%◌, ◌^◌, Bool, true, false, not, ◌&&◌, ◌||◌, ltb, ◌==◌,
  if◌then◌else◌, Buffer, set16, get16, has_bit,
}
use hazle_os.Ports.{Ports}

abbrev pub ata_primary_io : ℕ
ata_primary_io = 0x1F0

abbrev pub ata_primary_ctrl : ℕ
ata_primary_ctrl = 0x3F6

abbrev pub ata_secondary_io : ℕ
ata_secondary_io = 0x170

abbrev pub ata_secondary_ctrl : ℕ
ata_secondary_ctrl = 0x376

abbrev pub ata_reg_data : ℕ
ata_reg_data = 0

abbrev pub ata_reg_seccount : ℕ
ata_reg_seccount = 2

abbrev pub ata_reg_lba_lo : ℕ
ata_reg_lba_lo = 3

abbrev pub ata_reg_lba_mid : ℕ
ata_reg_lba_mid = 4

abbrev pub ata_reg_lba_hi : ℕ
ata_reg_lba_hi = 5

abbrev pub ata_reg_drive : ℕ
ata_reg_drive = 6

abbrev pub ata_reg_status : ℕ
ata_reg_status = 7

abbrev pub ata_reg_command : ℕ
ata_reg_command = 7

abbrev pub ata_cmd_read_pio : ℕ
ata_cmd_read_pio = 0x20

abbrev pub ata_cmd_write_pio : ℕ
ata_cmd_write_pio = 0x30

abbrev pub ata_cmd_cache_flush : ℕ
ata_cmd_cache_flush = 0xE7

abbrev pub ata_cmd_identify : ℕ
ata_cmd_identify = 0xEC

-- The bits of the status: `ATA_STATUS_ERR`, `ATA_STATUS_DRQ`, `ATA_STATUS_DF`, `ATA_STATUS_BSY`.
abbrev pub is_error : ℕ → Bool
is_error status = has_bit status 0

abbrev pub is_data : ℕ → Bool
is_data status = has_bit status 3

abbrev pub is_fault : ℕ → Bool
is_fault status = has_bit status 5

abbrev pub is_busy : ℕ → Bool
is_busy status = has_bit status 7

-- `ata_drive_t`
pub record Drive : Type 0 where
  pub present : Bool
  pub is_master : Bool
  pub io_base : ℕ
  pub ctrl_base : ℕ
  pub sector_count : ℕ
  pub model : Buffer
  pub serial : Buffer

-- What one status tells `ata_poll`; `left` is `timeout` after the decrement.
pub data Answer : Type 0 where
  ready failed again : Answer

pub judge : (check_error : Bool) (left status : ℕ) → Answer
judge check_error left status =
    if is_busy status
    then again
    else if check_error && (is_error status || is_fault status)
    then failed
    else if is_data status
    then ready
    else if ltb left 90000
    then failed
    else again

module _ (P : Ports) where
  pub delay : (io_base : ℕ) → Ports.State P → Ports.State P
  delay io_base m =
      let m1 = (Ports.inb P (io_base + ata_reg_status) m).1 in
      let m2 = (Ports.inb P (io_base + ata_reg_status) m1).1 in
      let m3 = (Ports.inb P (io_base + ata_reg_status) m2).1 in
      (Ports.inb P (io_base + ata_reg_status) m3).1

  -- `while (timeout--)` of `ata_poll`.
  pub poll_loop : (timeout io_base : ℕ) (check_error : Bool) → Ports.State P → Bool × Ports.State P
  unfolding judge
  poll_loop zero io_base check_error m = (false, m)
  poll_loop (suc left) io_base check_error m =
      let (status, read) = Ports.inb P (io_base + ata_reg_status) m in
      elim (judge check_error left status) [
        | ready ↦ (true, read)
        | failed ↦ (false, read)
        | again ↦ poll_loop left io_base check_error read
      ]

  pub poll : (io_base : ℕ) (check_error : Bool) → Ports.State P → Bool × Ports.State P
  unfolding delay poll_loop
  poll io_base check_error m = poll_loop 100000 io_base check_error (delay io_base m)

  pub select_drive : (io_base : ℕ) (master : Bool) → Ports.State P → Ports.State P
  unfolding delay
  select_drive io_base master m =
      delay io_base (Ports.outb P (io_base + ata_reg_drive) (if master then 0xA0 else 0xB0) m)

  -- The address of the first sector, the count and the command of a transfer.
  pub start_command : Drive → (lba count command : ℕ) → Ports.State P → Ports.State P
  unfolding select_drive delay
  start_command drive lba count command m =
      let io = drive.io_base in
      let selected = select_drive io drive.is_master m in
      let addressed =
        Ports.outb P (io + ata_reg_drive)
          ((if drive.is_master then 0xE0 else 0xF0) + lba / 2 ^ 24 % 2 ^ 4) selected in
      let m1 = Ports.outb P (io + ata_reg_seccount) count (delay io addressed) in
      let m2 = Ports.outb P (io + ata_reg_lba_lo) (lba % 2 ^ 8) m1 in
      let m3 = Ports.outb P (io + ata_reg_lba_mid) (lba / 2 ^ 8 % 2 ^ 8) m2 in
      let m4 = Ports.outb P (io + ata_reg_lba_hi) (lba / 2 ^ 16 % 2 ^ 8) m3 in
      Ports.outb P (io + ata_reg_command) command m4

  -- `for (i = ...) buf[i] = inw(io_base + ATA_REG_DATA)`, from word `i` on, with `n` left.
  pub read_words : (io_base n i : ℕ) → Buffer → Ports.State P → Buffer × Ports.State P
  read_words io_base zero i buf m = (buf, m)
  read_words io_base (suc n) i buf m =
      let (word, read) = Ports.inw P (io_base + ata_reg_data) m in
      read_words io_base n (i + 1) (set16 buf (2 * i) word) read

  pub write_words : (io_base n i : ℕ) → Buffer → Ports.State P → Ports.State P
  write_words io_base zero i buf m = m
  write_words io_base (suc n) i buf m =
      write_words io_base n (i + 1) buf
        (Ports.outw P (io_base + ata_reg_data) (get16 buf (2 * i)) m)

  -- The loop of `ata_read_sectors` at `sector`, with `n` sectors left.
  pub read_loop : (io_base n sector : ℕ) → Buffer → Ports.State P → (Bool × Buffer) × Ports.State P
  unfolding poll read_words
  read_loop io_base zero sector buf m = ((true, buf), m)
  read_loop io_base (suc n) sector buf m =
      let (polled, m1) = poll io_base true m in
      elim polled [
        | false ↦ ((false, buf), m1)
        | true ↦
            let (filled, m2) = read_words io_base 256 (sector * 256) buf m1 in
            read_loop io_base n (sector + 1) filled m2
      ]

  pub read_sectors :
      Drive → (lba count : ℕ) → Buffer → Ports.State P → (Bool × Buffer) × Ports.State P
  unfolding start_command read_loop
  read_sectors drive lba count buffer m = elim (not drive.present || (count == 0)) [
    | true ↦ ((false, buffer), m)
    | false ↦
        read_loop drive.io_base count 0 buffer (start_command drive lba count ata_cmd_read_pio m)
  ]

  pub write_loop : (io_base n sector : ℕ) → Buffer → Ports.State P → Bool × Ports.State P
  unfolding poll write_words
  write_loop io_base zero sector buf m = (true, m)
  write_loop io_base (suc n) sector buf m =
      let (polled, m1) = poll io_base true m in
      elim polled [
        | false ↦ (false, m1)
        | true ↦
            write_loop io_base n (sector + 1) buf (write_words io_base 256 (sector * 256) buf m1)
      ]

  pub write_sectors : Drive → (lba count : ℕ) → Buffer → Ports.State P → Bool × Ports.State P
  unfolding start_command write_loop
  write_sectors drive lba count buffer m = elim (not drive.present || (count == 0)) [
    | true ↦ (false, m)
    | false ↦
        write_loop drive.io_base count 0 buffer (start_command drive lba count ata_cmd_write_pio m)
  ]

  pub flush : Drive → Ports.State P → Bool × Ports.State P
  unfolding delay poll
  flush drive m = elim drive.present [
    | false ↦ (false, m)
    | true ↦
        let io = drive.io_base in
        let selected =
          Ports.outb P (io + ata_reg_drive) (if drive.is_master then 0xE0 else 0xF0) m in
        poll io true (Ports.outb P (io + ata_reg_command) ata_cmd_cache_flush (delay io selected))
  ]
