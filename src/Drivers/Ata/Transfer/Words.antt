-- ===== src/Drivers/Ata/Transfer/Words.antt =====
-- drivers/ata.c: the loops that take the words of the sectors, on a disk that answers.
use hazle_os.Prelude.{
  ℕ, zero, suc, ◌+◌, ◌*◌, ◌-◌, ◌<◌, true, ◌≡◌, refl, sym, ◌&&◌, ltb, leb, ◌≤◌, if◌then◌else◌,
  Buffer, get16, set16, arith,
}
use hazle_os.Ports.{Ports}
use hazle_os.Drivers.Ata.{poll, ata_reg_data, read_words, read_loop}
use hazle_os.Drivers.Ata.Transfer.{Disk, get16-set16, one_word_more, one_sector_more}
use hazle_os.Drivers.Ata.Transfer.Polling.{poll-ready}

module _ (P : Ports) (io_base : ℕ) (disk : Disk P io_base) where
  -- `n` words went to the buffer, from its word `i` on.
  record IsFilled (n i : ℕ) (buf filled : Buffer) (before after : Ports.State P) : Type 0 where
    next_sent : Disk.next_word disk after ≡ Disk.next_word disk before + n
    soon : Disk.wait disk after < 90000
    filled_words :
        (j : ℕ)
        → get16 filled (2 * j) ≡ (
            if leb i j && ltb j (i + n)
            then Disk.words disk (Disk.next_word disk before + (j - i))
            else get16 buf (2 * j))

  read_words-IsFilled :
      (rest n i : ℕ) (buf : Buffer) (m : Ports.State P)
      → n ≤ 256
      → Disk.words_left disk m ≡ n + 256 * rest
      → Disk.wait disk m < 90000
      → (0 < n → Disk.wait disk m ≡ 0)
      → (Disk.words_left disk (read_words P io_base n i buf m).1 ≡ 256 * rest)
        × IsFilled n i buf (read_words P io_base n i buf m).0 m (read_words P io_base n i buf m).1
  unfolding read_words
  read_words-IsFilled rest zero i buf m inside left short idle = (
    omega (arith, left),
    record { next_sent = omega arith; soon = short; filled_words = λ j. ground arith },
  )
  read_words-IsFilled rest (suc n) i buf m inside left short idle =
      let value = (Ports.inw P (io_base + ata_reg_data) m).0 in
      let read = (Ports.inw P (io_base + ata_reg_data) m).1 in
      let sent = Disk.word disk m (omega (arith, left)) (idle (omega arith)) in
      let left_then = Disk.word_left disk m in
      let next_then = Disk.word_next disk m in
      let small = Disk.word_inside disk (Disk.next_word disk m) in
      let (left_after, more) =
        read_words-IsFilled rest n (i + 1) (set16 buf (2 * i) value) read (omega arith)
          (omega (arith, left, left_then)) (Disk.word_waits disk m)
          (λ some_left. Disk.word_within disk m (ground (arith, left, some_left))) in
      (
        left_after,
        record {
          next_sent = let sent_then = more.next_sent in omega (arith, sent_then, next_then);
          soon = more.soon;
          filled_words = λ j.
              let stored = get16-set16 buf i j value (rw (sent) small) in
              let later = more.filled_words j in
              one_word_more (Disk.words disk) i n j (Disk.next_word disk m)
                (Disk.next_word disk read) value (get16 buf (2 * j)) _ _ later stored sent
                next_then;
        },
      )

  -- The words of `n` sectors go to the buffer, from `sector` on.
  pub read_loop-words :
      (n sector : ℕ) (buf : Buffer) (m : Ports.State P)
      → Disk.words_left disk m ≡ 256 * n
      → Disk.wait disk m < 90000
      → ((read_loop P io_base n sector buf m).0.0 ≡ true)
        × ((j : ℕ)
            → get16 (read_loop P io_base n sector buf m).0.1 (2 * j) ≡ (
                if leb (sector * 256) j && ltb j (sector * 256 + 256 * n)
                then Disk.words disk (Disk.next_word disk m + (j - sector * 256))
                else get16 buf (2 * j)))
  unfolding read_loop
  read_loop-words zero sector buf m left short = (refl, λ j. ground arith)
  read_loop-words (suc n) sector buf m left short =
      let (answer, polled) = poll-ready P io_base disk m (omega (arith, left)) short in
      let m1 = (poll P io_base true m).1 in
      let left1 = polled.same_left in
      let (left2, filled) =
        read_words-IsFilled n 256 (sector * 256) buf m1 (omega arith) (omega (arith, left, left1))
          (ground (arith, polled.idle)) (λ some. polled.idle) in
      let m2 = (read_words P io_base 256 (sector * 256) buf m1).1 in
      let buf2 = (read_words P io_base 256 (sector * 256) buf m1).0 in
      let (done, words) = read_loop-words n (sector + 1) buf2 m2 left2 filled.soon in
      let next1 = polled.same_next in
      let next2 = filled.next_sent in
      rw (answer, read_loop)
        (
          done,
          λ j.
              one_sector_more (Disk.words disk) sector n j (Disk.next_word disk m)
                (Disk.next_word disk m2) (get16 buf (2 * j)) _ _ (words j)
                (rw (sym next1) (filled.filled_words j)) (omega (arith, next1, next2)),
        )
