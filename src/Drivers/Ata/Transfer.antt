-- ===== src/Drivers/Ata/Transfer.antt =====
-- drivers/ata.c: a disk that answers a read, as the driver sees it through the ports.
pub mod Polling
pub mod Words
pub mod Reads
use hazle_os.Prelude.{
  ℕ, zero, suc, ◌+◌, ◌*◌, ◌/◌, ◌%◌, ◌^◌, ◌-◌, ◌<◌, Bool, true, false, ◌≡◌, ◌≢◌, refl, sym, ap, ◌∙◌,
  inl, inr, Bool-cases, ◌&&◌, ◌||◌, ltb, leb, ◌≤◌, if◌then◌else◌, ◌==◌, Buffer, update, get16,
  set16, get16-set16_self, arith, not,
}
use hazle_os.Ports.{Ports}
use hazle_os.Drivers.Ata.{
  Drive, Answer, ready, failed, again, delay, judge, poll_loop, poll, is_busy, is_data, is_error,
  is_fault, ata_reg_status, ata_reg_command, ata_reg_drive, ata_reg_data, ata_reg_seccount,
  ata_reg_lba_lo, ata_reg_lba_mid, ata_reg_lba_hi, ata_cmd_read_pio, read_words, read_loop,
  read_sectors, start_command, select_drive,
}

-- What the status of a transfer tells.
pub record IsStatus (status wait : ℕ) : Type 0 where
  pub busy : is_busy status ≡ ltb 0 wait
  pub no_error : wait ≡ 0 → is_error status ≡ false
  pub no_fault : wait ≡ 0 → is_fault status ≡ false
  pub data_asked : wait ≡ 0 → is_data status ≡ true

-- A disk as the standard describes it in a read: the registers hold what was written, the command
-- starts a transfer of the words of the sectors, and BSY is off again after some reads of the
-- status at the start of each sector, fewer than the driver waits for.
pub record Disk (P : Ports) (io_base : ℕ) : Type 1 where
  pub words : ℕ → ℕ
  pub register : Ports.State P → ℕ → ℕ
  pub wait : Ports.State P → ℕ
  pub words_left : Ports.State P → ℕ
  pub next_word : Ports.State P → ℕ
  pub word_inside : (k : ℕ) → words k < 2 ^ 16
  pub written :
      (reg value : ℕ) (m : Ports.State P)
      → reg < 7
      → value < 2 ^ 8
      → register (Ports.outb P (io_base + reg) value m) ≡ update (register m) reg value
  pub command_waits : (m : Ports.State P) → wait (Ports.outb P (io_base + 7) 0x20 m) < 90000
  pub command_words :
      (m : Ports.State P)
      → 0 < register m 2
      → register m 6 / 64 % 2 ≡ 1
      → words_left (Ports.outb P (io_base + 7) 0x20 m) ≡ register m 2 * 256
  pub command_next :
      (m : Ports.State P)
      → 0 < register m 2
      → register m 6 / 64 % 2 ≡ 1
      → next_word (Ports.outb P (io_base + 7) 0x20 m)
        ≡ 256
          * (register m 3
              + register m 4 * 2 ^ 8
              + register m 5 * 2 ^ 16
              + register m 6 % 2 ^ 4 * 2 ^ 24)
  pub status :
      (m : Ports.State P) → 0 < words_left m → IsStatus (Ports.inb P (io_base + 7) m).0 (wait m)
  pub status_register : (m : Ports.State P) → register (Ports.inb P (io_base + 7) m).1 ≡ register m
  pub status_wait : (m : Ports.State P) → wait (Ports.inb P (io_base + 7) m).1 ≡ wait m - 1
  pub status_left : (m : Ports.State P) → words_left (Ports.inb P (io_base + 7) m).1 ≡ words_left m
  pub status_next : (m : Ports.State P) → next_word (Ports.inb P (io_base + 7) m).1 ≡ next_word m
  pub word :
      (m : Ports.State P)
      → 0 < words_left m
      → wait m ≡ 0
      → (Ports.inw P (io_base + 0) m).0 ≡ words (next_word m)
  pub word_left :
      (m : Ports.State P) → words_left (Ports.inw P (io_base + 0) m).1 ≡ words_left m - 1
  pub word_next : (m : Ports.State P) → next_word (Ports.inw P (io_base + 0) m).1 ≡ next_word m + 1
  pub word_waits : (m : Ports.State P) → wait (Ports.inw P (io_base + 0) m).1 < 90000
  pub word_within :
      (m : Ports.State P) → (words_left m - 1) % 256 ≢ 0 → wait (Ports.inw P (io_base + 0) m).1 ≡ 0

pub get16-set16 :
    (b : Buffer) (i j v : ℕ)
    → v < 2 ^ 16
    → get16 (set16 b (2 * i) v) (2 * j) ≡ (if j == i then v else get16 b (2 * j))
unfolding get16 set16
get16-set16 b i j v h = ground arith

-- One word more, in front of the words that follow it.
pub one_word_more :
    (w : ℕ → ℕ) (i n j next next' value old stored filled : ℕ)
    → filled ≡ (if leb (i + 1) j && ltb j (i + 1 + n) then w (next' + (j - (i + 1))) else stored)
    → stored ≡ (if j == i then value else old)
    → value ≡ w next
    → next' ≡ next + 1
    → filled ≡ (if leb i j && ltb j (i + suc n) then w (next + (j - i)) else old)
one_word_more w i n j next next' value old stored filled later here sent after = grind arith

-- One sector more, in front of the sectors that follow it.
pub one_sector_more :
    (w : ℕ → ℕ) (sector n j next next' old stored filled : ℕ)
    → filled ≡ (
        if leb ((sector + 1) * 256) j && ltb j ((sector + 1) * 256 + 256 * n)
        then w (next' + (j - (sector + 1) * 256))
        else stored)
    → stored ≡ (
        if leb (sector * 256) j && ltb j (sector * 256 + 256)
        then w (next + (j - sector * 256))
        else old)
    → next' ≡ next + 256
    → filled ≡ (
        if leb (sector * 256) j && ltb j (sector * 256 + 256 * suc n)
        then w (next + (j - sector * 256))
        else old)
one_sector_more w sector n j next next' old stored filled later here after = grind arith
