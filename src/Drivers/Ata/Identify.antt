-- ===== src/Drivers/Ata/Identify.antt =====
-- drivers/ata.c: the search for a disk at the start.
use hazle_os.Prelude.{
  ℕ, zero, suc, ◌+◌, ◌*◌, ◌/◌, ◌%◌, ◌^◌, Bool, true, false, ◌&&◌, ltb, ◌==◌, if◌then◌else◌, Buffer,
  blank, update, has_bit,
}
use hazle_os.Ports.{Ports}
use hazle_os.Drivers.Ata.{
  Drive, delay, select_drive, is_busy, is_error, is_data, ata_primary_io, ata_primary_ctrl,
  ata_secondary_io, ata_secondary_ctrl, ata_reg_data, ata_reg_seccount, ata_reg_lba_lo,
  ata_reg_lba_mid, ata_reg_lba_hi, ata_reg_status, ata_reg_command, ata_cmd_identify,
}

-- `drive->model` from the words at 27 on: the high byte comes first.
pub swap_bytes : (n from i : ℕ) → (words : ℕ → ℕ) → Buffer → Buffer
swap_bytes zero from i words b = b
swap_bytes (suc n) from i words b = swap_bytes n from (i + 1) words (
    update (update b (i * 2) (words (from + i) / 2 ^ 8 % 2 ^ 8)) (i * 2 + 1)
      (words (from + i) % 2 ^ 8))

-- `while (end >= 0 && model[end] == ' ') model[end--] = '\0';`, where `n` is `end + 1`.
pub cut_spaces : (n : ℕ) → Buffer → Buffer
cut_spaces zero b = b
cut_spaces (suc n) b = elim (b n == b' ') [ true ↦ cut_spaces n (update b n 0) | false ↦ b ]

-- The drive, from the words that it sent.
pub describe : (words : ℕ → ℕ) → Drive → Drive
unfolding swap_bytes cut_spaces
describe words drive = record drive {
  present = true;
  sector_count =
      if has_bit (words 83) 10
      then words 100 + words 101 * 2 ^ 16
      else words 60 + words 61 * 2 ^ 16;
  model = cut_spaces 40 (update (swap_bytes 20 27 0 words drive.model) 40 0);
  serial = update (swap_bytes 10 10 0 words drive.serial) 20 0;
}

module _ (P : Ports) where
  -- The wait for the end of BSY, and whether `timeout` is still above 0 behind the loop.
  pub wait_idle : (timeout io_base : ℕ) → Ports.State P → Bool × Ports.State P
  wait_idle zero io_base m = (false, m)
  wait_idle (suc left) io_base m =
      let (status, read) = Ports.inb P (io_base + ata_reg_status) m in
      elim (is_busy status) [ false ↦ (ltb 0 left, read) | true ↦ wait_idle left io_base read ]

  -- The wait for DRQ, likewise.
  pub wait_data : (timeout io_base : ℕ) → Ports.State P → Bool × Ports.State P
  wait_data zero io_base m = (false, m)
  wait_data (suc left) io_base m =
      let (status, read) = Ports.inb P (io_base + ata_reg_status) m in
      elim (is_error status) [
        | true ↦ (false, read)
        | false ↦ elim (is_data status) [
          | true ↦ (ltb 0 left, read)
          | false ↦ wait_data left io_base read
        ]
      ]

  -- `identify_data`
  pub read_identity : (io_base n i : ℕ) → (ℕ → ℕ) → Ports.State P → (ℕ → ℕ) × Ports.State P
  read_identity io_base zero i words m = (words, m)
  read_identity io_base (suc n) i words m =
      let (word, read) = Ports.inw P (io_base + ata_reg_data) m in
      read_identity io_base n (i + 1) (update words i word) read

  -- The registers and the command of the request.
  pub request : (io_base : ℕ) (master : Bool) → Ports.State P → Ports.State P
  unfolding delay select_drive
  request io_base master m =
      let m1 = Ports.outb P (io_base + ata_reg_seccount) 0 (select_drive P io_base master m) in
      let m2 = Ports.outb P (io_base + ata_reg_lba_lo) 0 m1 in
      let m3 = Ports.outb P (io_base + ata_reg_lba_mid) 0 m2 in
      let m4 = Ports.outb P (io_base + ata_reg_lba_hi) 0 m3 in
      delay P io_base (Ports.outb P (io_base + ata_reg_command) ata_cmd_identify m4)

  -- The answer of a disk that is there, from the wait for the end of BSY on.
  pub await : (io_base : ℕ) → Drive → Ports.State P → (Bool × Drive) × Ports.State P
  unfolding wait_idle wait_data read_identity describe
  await io_base drive m =
      let (idle, m1) = wait_idle 100000 io_base m in
      elim idle [
        | false ↦ ((false, drive), m1)
        | true ↦
            let (lba_mid, m2) = Ports.inb P (io_base + ata_reg_lba_mid) m1 in
            let (lba_hi, m3) = Ports.inb P (io_base + ata_reg_lba_hi) m2 in
            elim ((lba_mid == 0) && (lba_hi == 0)) [
              | false ↦ ((false, drive), m3)
              | true ↦
                  let (data_ready, m4) = wait_data 100000 io_base m3 in
                  elim data_ready [
                    | false ↦ ((false, drive), m4)
                    | true ↦
                        let (words, m5) = read_identity io_base 256 0 blank m4 in
                        ((true, describe words drive), m5)
                  ]
            ]
      ]

  pub identify :
      (io_base : ℕ) (master : Bool) → Drive → Ports.State P → (Bool × Drive) × Ports.State P
  unfolding request await
  identify io_base master drive m =
      let ctrl = if io_base == ata_primary_io then ata_primary_ctrl else ata_secondary_ctrl in
      let asked = record drive {
        present = false;
        io_base = io_base;
        ctrl_base = ctrl;
        is_master = master;
      } in
      let (status, read) = Ports.inb P (io_base + ata_reg_status) (request io_base master m) in
      elim (status == 0) [ true ↦ ((false, asked), read) | false ↦ await io_base asked read ]

  -- `if (!ata_identify(...)) ...` of `ata_init`.
  pub or_identify :
      (io_base : ℕ) (master : Bool)
      → (Bool × Drive) × Ports.State P
      → (Bool × Drive) × Ports.State P
  unfolding identify
  or_identify io_base master ((true, drive), m) = ((true, drive), m)
  or_identify io_base master ((false, drive), m) = identify io_base master drive m

  -- `primary_drive` after `memset(&primary_drive, 0, sizeof(ata_drive_t))`
  abbrev no_drive : Drive
  no_drive = record {
    present = false;
    is_master = false;
    io_base = 0;
    ctrl_base = 0;
    sector_count = 0;
    model = blank;
    serial = blank;
  }

  pub init : Ports.State P → Drive × Ports.State P
  unfolding or_identify
  init m =
      let first = identify ata_primary_io true no_drive m in
      let second = or_identify ata_primary_io false first in
      let third = or_identify ata_secondary_io true second in
      let ((found, drive), m') = or_identify ata_secondary_io false third in (drive, m')
