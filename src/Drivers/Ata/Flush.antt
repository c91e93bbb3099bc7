-- ===== src/Drivers/Ata/Flush.antt =====
-- drivers/ata.c: the wait behind a flush.
use hazle_os.Prelude.{
  ℕ, zero, suc, ◌+◌, Bool, true, false, ◌≡◌, ◌⊎◌, refl, inl, inr, Bool-cases, ◌&&◌, ◌||◌, ltb,
}
use hazle_os.Ports.{Ports}
use hazle_os.Drivers.Ata.{
  Drive, failed, again, delay, judge, poll_loop, poll, flush, is_busy, is_data, is_error, is_fault,
  ata_reg_status, ata_reg_command, ata_cmd_cache_flush,
}

-- A disk as the standard describes it during a flush, a command without data: from the command on
-- it is in a state in which the status does not ask for data once BSY is off, and a read of the
-- status keeps it there.
pub record IsDataless (P : Ports) (io_base : ℕ) : Type 1 where
  pub Flushing : Ports.State P → Type 0
  pub begins :
      (m : Ports.State P)
      → Flushing (Ports.outb P (io_base + ata_reg_command) ata_cmd_cache_flush m)
  pub stays :
      (m : Ports.State P) → Flushing m → Flushing (Ports.inb P (io_base + ata_reg_status) m).1
  pub no_data :
      (m : Ports.State P)
      → Flushing m
      → is_busy (Ports.inb P (io_base + ata_reg_status) m).0 ≡ false
      → is_data (Ports.inb P (io_base + ata_reg_status) m).0 ≡ false

judge-dataless :
    (check_error : Bool) (left status : ℕ)
    → (is_busy status ≡ false → is_data status ≡ false)
    → (judge check_error left status ≡ failed) ⊎ (judge check_error left status ≡ again)
unfolding judge
judge-dataless check_error left status h = elim (Bool-cases (is_busy status)) [
  | inl busy ↦ inr (rw (busy, judge) refl)
  | inr idle ↦ elim (Bool-cases (check_error && (is_error status || is_fault status))) [
    | inl bad ↦ inl (rw (idle, bad, judge) refl)
    | inr good ↦ elim (Bool-cases (ltb left 90000)) [
      | inl late ↦ inl (rw (idle, good, h idle, late, judge) refl)
      | inr early ↦ inr (rw (idle, good, h idle, early, judge) refl)
    ]
  ]
]

module _ (P : Ports) (io_base : ℕ) (disk : IsDataless P io_base) where
  poll_loop-dataless :
      (timeout : ℕ) (m : Ports.State P)
      → IsDataless.Flushing disk m
      → (poll_loop P timeout io_base true m).0 ≡ false
  unfolding poll_loop
  poll_loop-dataless zero m h = refl
  poll_loop-dataless (suc left) m h =
      let status = (Ports.inb P (io_base + ata_reg_status) m).0 in
      let rest =
        poll_loop-dataless left (Ports.inb P (io_base + ata_reg_status) m).1
          (IsDataless.stays disk m h) in
      elim (judge-dataless true left status (IsDataless.no_data disk m h)) [
        | inl e ↦ rw (e, poll_loop) refl
        | inr e ↦ rw (e, poll_loop) rest
      ]

  delay-Flushing :
      (m : Ports.State P)
      → IsDataless.Flushing disk m
      → IsDataless.Flushing disk (delay P io_base m)
  unfolding delay
  delay-Flushing m h =
      IsDataless.stays disk _
        (IsDataless.stays disk _ (IsDataless.stays disk _ (IsDataless.stays disk m h)))

-- On a disk that follows the standard, from whatever state it is in, `ata_flush` reports failure:
-- it waits for a request for data that no flush makes.
pub flush-dataless :
    (P : Ports) (drive : Drive) (m : Ports.State P)
    → IsDataless P drive.io_base
    → (flush P drive m).0 ≡ false
unfolding flush poll
flush-dataless P drive m disk = elim (Bool-cases drive.present) [
  | inl there ↦
      rw (there, flush)
        (poll_loop-dataless P drive.io_base disk 100000 _
          (delay-Flushing P drive.io_base disk _ (IsDataless.begins disk _)))
  | inr absent ↦ rw (absent, flush) refl
]
