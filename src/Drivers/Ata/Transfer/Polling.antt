-- ===== src/Drivers/Ata/Transfer/Polling.antt =====
-- drivers/ata.c: `ata_poll` and the delay before it, on a disk that answers.
use hazle_os.Prelude.{
  ℕ, zero, suc, ◌+◌, ◌-◌, ◌<◌, true, ◌≡◌, refl, ◌∙◌, inl, inr, Bool-cases, ltb, if◌then◌else◌,
  arith,
}
use hazle_os.Ports.{Ports}
use hazle_os.Drivers.Ata.{ready, again, delay, judge, poll_loop, poll, ata_reg_status}
use hazle_os.Drivers.Ata.Transfer.{IsStatus, Disk}

judge-status :
    (left status wait : ℕ)
    → IsStatus status wait
    → judge true left status ≡ (if ltb 0 wait then again else ready)
unfolding judge
judge-status left status wait h = elim (Bool-cases (ltb 0 wait)) [
  | inl busy ↦ rw (h.busy, busy, judge) refl
  | inr idle ↦
      let over : wait ≡ 0 = ground (arith, idle) in
      rw (h.busy, idle, h.no_error over, h.no_fault over, h.data_asked over, judge) refl
]

module _ (P : Ports) (io_base : ℕ) (disk : Disk P io_base) where
  -- The disk is ready for the same word as before.
  pub record IsPolled (before after : Ports.State P) : Type 0 where
    pub same_left : Disk.words_left disk after ≡ Disk.words_left disk before
    pub same_next : Disk.next_word disk after ≡ Disk.next_word disk before
    pub idle : Disk.wait disk after ≡ 0

  poll_loop-ready :
      (timeout : ℕ) (m : Ports.State P)
      → 0 < Disk.words_left disk m
      → Disk.wait disk m < timeout
      → ((poll_loop P timeout io_base true m).0 ≡ true)
        × IsPolled m (poll_loop P timeout io_base true m).1
  unfolding poll_loop
  poll_loop-ready zero m more short = absurd (omega arith)
  poll_loop-ready (suc timeout) m more short =
      let read = (Ports.inb P (io_base + ata_reg_status) m).1 in
      let left = Disk.status_left disk m in
      let next = Disk.status_next disk m in
      let waits = Disk.status_wait disk m in
      let judged =
        judge-status timeout (Ports.inb P (io_base + ata_reg_status) m).0 (Disk.wait disk m)
          (Disk.status disk m more) in
      elim (Bool-cases (ltb 0 (Disk.wait disk m))) [
        | inl busy ↦
            let (answer, polled) =
              poll_loop-ready timeout read (omega (arith, left)) (ground (arith, waits, busy)) in
            rw (judged, busy, poll_loop)
              (
                answer,
                record {
                  same_left = polled.same_left ∙ left;
                  same_next = polled.same_next ∙ next;
                  idle = polled.idle;
                },
              )
        | inr over ↦
            rw (judged, over, poll_loop)
              (
                refl,
                record { same_left = left; same_next = next; idle = ground (arith, waits, over) },
              )
      ]

  pub record IsDelayed (before after : Ports.State P) : Type 0 where
    pub same_register : Disk.register disk after ≡ Disk.register disk before
    pub still_left : Disk.words_left disk after ≡ Disk.words_left disk before
    pub still_next : Disk.next_word disk after ≡ Disk.next_word disk before
    pub no_longer : Disk.wait disk after ≡ Disk.wait disk before - 4

  pub delay-IsDelayed : (m : Ports.State P) → IsDelayed m (delay P io_base m)
  unfolding delay
  delay-IsDelayed m =
      let m1 = (Ports.inb P (io_base + ata_reg_status) m).1 in
      let m2 = (Ports.inb P (io_base + ata_reg_status) m1).1 in
      let m3 = (Ports.inb P (io_base + ata_reg_status) m2).1 in
      record {
        same_register =
            Disk.status_register disk m3
            ∙ Disk.status_register disk m2
            ∙ Disk.status_register disk m1
            ∙ Disk.status_register disk m;
        still_left =
            Disk.status_left disk m3
            ∙ Disk.status_left disk m2
            ∙ Disk.status_left disk m1
            ∙ Disk.status_left disk m;
        still_next =
            Disk.status_next disk m3
            ∙ Disk.status_next disk m2
            ∙ Disk.status_next disk m1
            ∙ Disk.status_next disk m;
        no_longer =
            let w1 = Disk.status_wait disk m in
            let w2 = Disk.status_wait disk m1 in
            let w3 = Disk.status_wait disk m2 in
            let w4 = Disk.status_wait disk m3 in omega (arith, w1, w2, w3, w4);
      }

  pub poll-ready :
      (m : Ports.State P)
      → 0 < Disk.words_left disk m
      → Disk.wait disk m < 90000
      → ((poll P io_base true m).0 ≡ true) × IsPolled m (poll P io_base true m).1
  unfolding poll
  poll-ready m more short =
      let delayed = delay-IsDelayed m in
      let left = delayed.still_left in
      let longer = delayed.no_longer in
      let (answer, polled) =
        poll_loop-ready 100000 (delay P io_base m) (omega (arith, left)) (omega (arith, longer)) in
      (
        answer,
        record {
          same_left = polled.same_left ∙ delayed.still_left;
          same_next = polled.same_next ∙ delayed.still_next;
          idle = polled.idle;
        },
      )
