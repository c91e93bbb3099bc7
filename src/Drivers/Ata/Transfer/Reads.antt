-- ===== src/Drivers/Ata/Transfer/Reads.antt =====
-- drivers/ata.c: a read from its registers to its last word.
use hazle_os.Prelude.{
  ℕ, ◌+◌, ◌*◌, ◌/◌, ◌%◌, ◌^◌, ◌-◌, ◌<◌, true, false, ◌≡◌, refl, ap, ◌∙◌, ◌&&◌, ltb, leb,
  if◌then◌else◌, ◌==◌, Buffer, get16, arith,
}
use hazle_os.Ports.{Ports}
use hazle_os.Drivers.Ata.{
  Drive, delay, ata_reg_drive, ata_reg_seccount, ata_reg_lba_lo, ata_reg_lba_mid, ata_reg_lba_hi,
  ata_cmd_read_pio, read_sectors, start_command, select_drive,
}
use hazle_os.Drivers.Ata.Transfer.{Disk}
use hazle_os.Drivers.Ata.Transfer.Polling.{IsDelayed, delay-IsDelayed}
use hazle_os.Drivers.Ata.Transfer.Words.{read_loop-words}

-- The registers from the parts of the sector's number.
lba_parts :
    (lba top : ℕ)
    → lba < 2 ^ 28
    → top % 2 ^ 4 ≡ lba / 2 ^ 24 % 2 ^ 4
    → lba % 2 ^ 8
        + lba / 2 ^ 8 % 2 ^ 8 * 2 ^ 8
        + lba / 2 ^ 16 % 2 ^ 8 * 2 ^ 16
        + top % 2 ^ 4 * 2 ^ 24
      ≡ lba
lba_parts lba top inside same = omega arith

module _ (P : Ports) (drive : Drive) (disk : Disk P drive.io_base) where
  -- The disk is about to send the sectors.
  record IsStarted (lba count : ℕ) (m : Ports.State P) : Type 0 where
    all_left : Disk.words_left disk m ≡ 256 * count
    at_lba : Disk.next_word disk m ≡ 256 * lba
    soon_ready : Disk.wait disk m < 90000

  start_command-IsStarted :
      (lba count : ℕ) (m : Ports.State P)
      → 0 < count
      → count < 2 ^ 8
      → lba < 2 ^ 28
      → IsStarted lba count (start_command P drive lba count ata_cmd_read_pio m)
  unfolding start_command
  start_command-IsStarted lba count m some byte inside =
      let io = drive.io_base in
      let selected = select_drive P io drive.is_master m in
      let top = (if drive.is_master then 0xE0 else 0xF0) + lba / 2 ^ 24 % 2 ^ 4 in
      let addressed = Ports.outb P (io + ata_reg_drive) top selected in
      let m0 = delay P io addressed in
      let m1 = Ports.outb P (io + ata_reg_seccount) count m0 in
      let m2 = Ports.outb P (io + ata_reg_lba_lo) (lba % 2 ^ 8) m1 in
      let m3 = Ports.outb P (io + ata_reg_lba_mid) (lba / 2 ^ 8 % 2 ^ 8) m2 in
      let m4 = Ports.outb P (io + ata_reg_lba_hi) (lba / 2 ^ 16 % 2 ^ 8) m3 in
      let r0 =
        IsDelayed.same_register (delay-IsDelayed P io disk addressed)
        ∙ Disk.written disk 6 top selected (omega arith) (ground arith) in
      let r1 = Disk.written disk 2 count m0 (omega arith) (omega arith) in
      let r2 = Disk.written disk 3 (lba % 2 ^ 8) m1 (omega arith) (omega arith) in
      let r3 = Disk.written disk 4 (lba / 2 ^ 8 % 2 ^ 8) m2 (omega arith) (omega arith) in
      let r4 = Disk.written disk 5 (lba / 2 ^ 16 % 2 ^ 8) m3 (omega arith) (omega arith) in
      let counted : Disk.register disk m4 2 ≡ count = rw (r4, r3, r2, r1) refl in
      let low : Disk.register disk m4 3 ≡ lba % 2 ^ 8 = rw (r4, r3, r2) refl in
      let mid : Disk.register disk m4 4 ≡ lba / 2 ^ 8 % 2 ^ 8 = rw (r4, r3) refl in
      let high : Disk.register disk m4 5 ≡ lba / 2 ^ 16 % 2 ^ 8 = rw (r4) refl in
      let chosen : Disk.register disk m4 6 ≡ top = rw (r4, r3, r2, r1, r0) refl in
      let lba_mode : Disk.register disk m4 6 / 64 % 2 ≡ 1 = ground (arith, chosen) in
      let given : 0 < Disk.register disk m4 2 = omega (arith, counted) in
      let top_part : top % 2 ^ 4 ≡ lba / 2 ^ 24 % 2 ^ 4 = ground arith in
      record {
        all_left =
            let left = Disk.command_words disk m4 given lba_mode in omega (arith, left, counted);
        at_lba =
            Disk.command_next disk m4 given lba_mode
            ∙ rw (low, mid, high, chosen) (ap (λ l. 256 * l) (lba_parts lba top inside top_part));
        soon_ready = Disk.command_waits disk m4;
      }

from_first :
    (w : ℕ → ℕ) (lba n j next old filled : ℕ)
    → filled
      ≡ (if leb (0 * 256) j && ltb j (0 * 256 + 256 * n) then w (next + (j - 0 * 256)) else old)
    → next ≡ 256 * lba
    → filled ≡ (if ltb j (256 * n) then w (256 * lba + j) else old)
from_first w lba n j next old filled read at = grind arith

-- From a disk that answers as the standard says, for a drive that is present, a count from 1 to 255
-- and a sector number below 2^28, `ata_read_sectors` reports success and puts the words of the
-- `count` sectors from `lba` on into the buffer, and leaves the words behind them.
pub read_sectors-words :
    (P : Ports) (drive : Drive) (disk : Disk P drive.io_base) (lba count : ℕ) (buffer : Buffer)
    (m : Ports.State P)
    → drive.present ≡ true
    → 0 < count
    → count < 2 ^ 8
    → lba < 2 ^ 28
    → ((read_sectors P drive lba count buffer m).0.0 ≡ true)
      × ((j : ℕ)
          → get16 (read_sectors P drive lba count buffer m).0.1 (2 * j) ≡ (
              if ltb j (256 * count)
              then Disk.words disk (256 * lba + j)
              else get16 buffer (2 * j)))
unfolding read_sectors
read_sectors-words P drive disk lba count buffer m there some byte inside =
    let begun = start_command-IsStarted P drive disk lba count m some byte inside in
    let m1 = start_command P drive lba count ata_cmd_read_pio m in
    let (done, words) =
      read_loop-words P drive.io_base disk count 0 buffer m1 begun.all_left begun.soon_ready in
    let nonzero : (count == 0) ≡ false = ground arith in
    rw (there, nonzero, read_sectors)
      (
        done,
        λ j.
            from_first (Disk.words disk) lba count j (Disk.next_word disk m1) (get16 buffer (2 * j))
              _ (words j) begun.at_lba,
      )
