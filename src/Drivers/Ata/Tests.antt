-- ===== src/Drivers/Ata/Tests.antt =====
-- A disk that is busy for three reads of its status after a flush, and one that sends the numbers
-- of its words.
use hazle_os.Prelude.{
  ◌+◌, ◌*◌, ◌%◌, ◌^◌, ◌<◌, ltb, update, get16, arith, ℕ, ◌-◌, true, false, inl, inr, Bool-cases,
  blank, ◌≡◌, refl, ◌==◌, if◌then◌else◌,
}
use hazle_os.Ports.{Ports}
use hazle_os.Drivers.Ata.{Drive, flush, read_sectors, is_data}
use hazle_os.Drivers.Ata.Transfer.{IsStatus, Disk}
use hazle_os.Drivers.Ata.Transfer.Reads.{read_sectors-words}
use hazle_os.Drivers.Ata.Flush.{IsDataless, flush-dataless}

abbrev flushing_disk : Ports
flushing_disk = record {
  State = ℕ;
  inb = λ port left. (if left == 0 then 0x50 else 0xD0, left - 1);
  outb = λ port value left. if value == 0xE7 then 3 else left;
  inw = λ port left. (0, left);
  outw = λ port value left. left;
}

status-dataless : (left : ℕ) → is_data (if left == 0 then 0x50 else 0xD0) ≡ false
status-dataless left = elim (Bool-cases (left == 0)) [ inl e ↦ rw (e) refl | inr e ↦ rw (e) refl ]

flushing_disk-IsDataless : IsDataless flushing_disk 0x1F0
flushing_disk-IsDataless = record {
  Flushing = λ left. ℕ;
  begins = λ left. 0;
  stays = λ left h. 0;
  no_data = λ left h idle. status-dataless left;
}

abbrev disk_drive : Drive
disk_drive = record {
  present = true;
  is_master = true;
  io_base = 0x1F0;
  ctrl_base = 0x3F6;
  sector_count = 64;
  model = blank;
  serial = blank;
}

flush-dataless_example : (flush flushing_disk disk_drive 0).0 ≡ false
flush-dataless_example = flush-dataless flushing_disk disk_drive 0 flushing_disk-IsDataless

record Sender : Type 0 where
  registers : ℕ → ℕ
  busy_left : ℕ
  words_to_send : ℕ
  at_word : ℕ

abbrev start_sending : Sender → Sender
start_sending m = record m {
  busy_left = 3;
  words_to_send = m.registers 2 * 256;
  at_word =
      256
      * (m.registers 3
          + m.registers 4 * 2 ^ 8
          + m.registers 5 * 2 ^ 16
          + m.registers 6 % 2 ^ 4 * 2 ^ 24);
}

abbrev sending_disk : Ports
sending_disk = record {
  State = Sender;
  inb =
      λ port m. (if m.busy_left == 0 then 0x58 else 0xD0, record m { busy_left = m.busy_left - 1 });
  outb = λ port value m.
      if port == 0x1F7
      then start_sending m
      else record m { registers = update m.registers (port - 0x1F0) value };
  inw = λ port m. (
    m.at_word % 2 ^ 16,
    record m {
      busy_left = if (m.words_to_send - 1) % 256 == 0 then 3 else 0;
      words_to_send = m.words_to_send - 1;
      at_word = m.at_word + 1;
    },
  );
  outw = λ port value m. m;
}

abbrev idle_sender : Sender
idle_sender = record { registers = blank; busy_left = 0; words_to_send = 0; at_word = 0 }

sending_status : (wait : ℕ) → IsStatus (if wait == 0 then 0x58 else 0xD0) wait
sending_status wait = elim (Bool-cases (wait == 0)) [
  | inl e ↦ record {
    busy = rw (e) (ground arith);
    no_error = λ over. rw (e) refl;
    no_fault = λ over. rw (e) refl;
    data_asked = λ over. rw (e) refl;
  }
  | inr e ↦ record {
    busy = rw (e) (ground arith);
    no_error = λ over. absurd (ground (arith, e, over));
    no_fault = λ over. absurd (ground (arith, e, over));
    data_asked = λ over. absurd (ground (arith, e, over));
  }
]

sending_written :
    (reg value : ℕ) (m : Sender)
    → reg < 7
    → Sender.registers (Ports.outb sending_disk (0x1F0 + reg) value m)
      ≡ update m.registers reg value
sending_written reg value m inside =
    let other : (0x1F0 + reg == 0x1F7) ≡ false = ground arith in
    let same : 0x1F0 + reg - 0x1F0 ≡ reg = omega arith in rw (other, same) refl

sending_disk-Disk : Disk sending_disk 0x1F0
sending_disk-Disk = record {
  words = λ k. k % 2 ^ 16;
  register = λ m. m.registers;
  wait = λ m. m.busy_left;
  words_left = λ m. m.words_to_send;
  next_word = λ m. m.at_word;
  word_inside = λ k. omega arith;
  written = λ reg value m inside byte. sending_written reg value m inside;
  command_waits = λ m. omega arith;
  command_words = λ m some lba. refl;
  command_next = λ m some lba. refl;
  status = λ m more. sending_status m.busy_left;
  status_register = λ m. refl;
  status_wait = λ m. refl;
  status_left = λ m. refl;
  status_next = λ m. refl;
  word = λ m more over. refl;
  word_left = λ m. refl;
  word_next = λ m. refl;
  word_waits = λ m. ground arith;
  word_within = λ m within. ground (arith, within);
}

read_sectors-words_example :
    ((read_sectors sending_disk disk_drive 5 2 blank idle_sender).0.0 ≡ true)
    × ((j : ℕ)
        → get16 (read_sectors sending_disk disk_drive 5 2 blank idle_sender).0.1 (2 * j) ≡ (
            if ltb j (256 * 2)
            then Disk.words sending_disk-Disk (256 * 5 + j)
            else get16 blank (2 * j)))
read_sectors-words_example =
    read_sectors-words sending_disk disk_drive sending_disk-Disk 5 2 blank idle_sender refl
      (omega arith) (omega arith) (omega arith)
