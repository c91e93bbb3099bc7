-- ===== src/Kernel/Elf/Segment.antt =====
-- One segment of a program: what its copy writes, as long as it stays off the file.
use hazle_os.Prelude.{
  ℕ, ◌+◌, ◌-◌, ◌≤◌, ◌<◌, ◌^◌, ◌≡◌, refl, ap, ◌∙◌, arith, Buffer, u32, sub32, ltb, true,
  if◌then◌else◌, inl, inr, Bool-cases, get16, get32,
}
use hazle_os.Kernel.Elf.{
  Phdr, file_at, phdr_at, phoff, phentsize, phnum, entry, copy_bytes, clear_bytes, copy_segment,
}
use hazle_os.Kernel.Elf.Bytes.{
  copy_bytes-outside, copy_bytes-inside, clear_bytes-outside, clear_bytes-inside,
}

-- How many bytes a segment fills.
abbrev pub extent : Phdr → ℕ
extent p = if ltb p.filesz p.memsz then p.memsz else p.filesz

-- The addresses that it fills, from `vaddr` on and around the end of the 32 bits.
abbrev pub Covers : Phdr → ℕ → Type 0
Covers p a = sub32 a p.vaddr < extent p

-- The fields are words, and the segment lies in the file of that size.
pub record IsSegment (size : ℕ) (p : Phdr) : Type 0 where
  pub stored_word : p.filesz < 2 ^ 32
  pub memory_word : p.memsz < 2 ^ 32
  pub within : p.offset + p.filesz ≤ size

module _ (base size : ℕ) (m0 : Buffer) where
  abbrev pub file : Buffer
  file = file_at m0 base

  -- The bytes of a segment: the file's, and then zeros.
  abbrev pub image : Phdr → ℕ → ℕ
  image p j = if ltb j p.filesz then file (p.offset + j) else 0

  -- The file is in memory as it was at the start.
  abbrev pub IsKept : Buffer → Type 0
  IsKept m = (o : ℕ) → o < size → file_at m base o ≡ file o

  -- The segment fills no byte of the file.
  abbrev pub IsOff : Phdr → Type 0
  IsOff p = (o : ℕ) → o < size → ¬ Covers p (u32 (base + o))

  module _ (m : Buffer) (kept : IsKept m) where
    get32-kept : (o : ℕ) → o + 4 ≤ size → get32 (file_at m base) o ≡ get32 file o
    unfolding get32
    get32-kept o h =
        rw
          (
            kept o (omega arith),
            kept (o + 1) (omega arith),
            kept (o + 2) (omega arith),
            kept (o + 3) (omega arith),
          )
          refl

    get16-kept : (o : ℕ) → o + 2 ≤ size → get16 (file_at m base) o ≡ get16 file o
    unfolding get16
    get16-kept o h = rw (kept o (omega arith), kept (o + 1) (omega arith)) refl

    pub phdr_at-kept : (o : ℕ) → o + 32 ≤ size → phdr_at (file_at m base) o ≡ phdr_at file o
    phdr_at-kept o h =
        rw
          (
            get32-kept o (omega arith),
            get32-kept (o + 4) (omega arith),
            get32-kept (o + 8) (omega arith),
            get32-kept (o + 16) (omega arith),
            get32-kept (o + 20) (omega arith),
          )
          refl

    pub phnum-kept : 52 ≤ size → phnum (file_at m base) ≡ phnum file
    phnum-kept h = get16-kept 44 (omega arith)

    pub phoff-kept : 52 ≤ size → phoff (file_at m base) ≡ phoff file
    phoff-kept h = get32-kept 28 (omega arith)

    pub phentsize-kept : 52 ≤ size → phentsize (file_at m base) ≡ phentsize file
    phentsize-kept h = get16-kept 42 (omega arith)

    pub entry-kept : 52 ≤ size → entry (file_at m base) ≡ entry file
    entry-kept h = get32-kept 24 (omega arith)

  -- The bytes of the file, and then the zeros by the sizes as they are read after that.
  abbrev copied_by : Phdr → Buffer → Buffer
  copied_by p = copy_bytes p.filesz p.vaddr (base + p.offset)

  abbrev zeroed : (vaddr : ℕ) → Buffer → Phdr → Buffer
  zeroed vaddr copied q =
      if ltb q.filesz q.memsz
      then clear_bytes (q.memsz - q.filesz) (vaddr + q.filesz) copied
      else copied

  -- The copy by the header as it was at the start.
  placed : Phdr → Buffer → Buffer
  placed p m = zeroed p.vaddr (copied_by p m) p

  copied-other :
      (p : Phdr) (m : Buffer) (a : ℕ)
      → a < 2 ^ 32
      → ¬ Covers p a
      → copy_bytes p.filesz p.vaddr (base + p.offset) m a ≡ m a
  copied-other p m a word far =
      copy_bytes-outside p.filesz p.vaddr (base + p.offset) m a word (ground (arith, far))

  placed-other :
      (p : Phdr) (m : Buffer) (a : ℕ)
      → p.filesz < 2 ^ 32
      → a < 2 ^ 32
      → ¬ Covers p a
      → placed p m a ≡ m a
  unfolding placed
  placed-other p m a small word far = elim (Bool-cases (ltb p.filesz p.memsz)) [
    | inr exact ↦ rw exact (copied-other p m a word far)
    | inl zeros ↦ rw zeros (
        clear_bytes-outside (p.memsz - p.filesz) (p.vaddr + p.filesz) _ a word
          (ground (arith, far, zeros))
        ∙ copied-other p m a word far)
  ]

  -- The bytes that a segment is copied from are apart from it.
  source_apart :
      (p : Phdr) (i : ℕ)
      → IsSegment size p
      → IsOff p
      → i < p.filesz
      → p.filesz ≤ sub32 (u32 (base + p.offset + i)) p.vaddr
  source_apart p i h off below =
      let same : base + p.offset + i ≡ base + (p.offset + i) = omega arith in
      let far = off (p.offset + i) (omega (arith, h.within)) in rw same (ground (arith, far))

  copied-image :
      (p : Phdr) (m : Buffer) (j : ℕ)
      → IsKept m
      → IsSegment size p
      → IsOff p
      → j < p.filesz
      → copy_bytes p.filesz p.vaddr (base + p.offset) m (u32 (p.vaddr + j)) ≡ file (p.offset + j)
  copied-image p m j kept h off below =
      copy_bytes-inside p.filesz p.vaddr (base + p.offset) m j h.stored_word
        (λ i inside. source_apart p i h off inside) below
      ∙ ap (λ a. m (u32 a)) (omega arith)
      ∙ kept (p.offset + j) (omega (arith, h.within))

  placed-image :
      (p : Phdr) (m : Buffer) (j : ℕ)
      → IsKept m
      → IsSegment size p
      → IsOff p
      → j < extent p
      → placed p m (u32 (p.vaddr + j)) ≡ image p j
  unfolding placed
  placed-image p m j kept h off inside = elim (Bool-cases (ltb p.filesz p.memsz)) [
    | inr exact ↦
        let stored : ltb j p.filesz ≡ true = ground (arith, inside, exact) in
        rw (exact, stored) (copied-image p m j kept h off (ground arith))
    | inl zeros ↦ elim (Bool-cases (ltb j p.filesz)) [
      | inl stored ↦
          rw (zeros, stored)
            (clear_bytes-outside (p.memsz - p.filesz) (p.vaddr + p.filesz) _ (u32 (p.vaddr + j))
                (omega arith) (ground (arith, zeros, stored, h.memory_word))
              ∙ copied-image p m j kept h off (ground arith))
      | inr behind ↦
          let at : p.vaddr + j ≡ p.vaddr + p.filesz + (j - p.filesz) = ground arith in
          rw (zeros, behind, at)
            (clear_bytes-inside (p.memsz - p.filesz) (p.vaddr + p.filesz) _ (j - p.filesz)
              (omega (arith, h.memory_word)) (ground (arith, inside, zeros)))
    ]
  ]

  module _ (o : ℕ) (m : Buffer) (kept : IsKept m) (header_inside : o + 32 ≤ size)
      (h : IsSegment size (phdr_at file o)) (off : IsOff (phdr_at file o)) where
    -- The header is the same before the copy and behind it.
    copy_segment-placed : copy_segment base o m ≡ placed (phdr_at file o) m
    unfolding copy_segment placed
    copy_segment-placed =
        let p = phdr_at file o in
        let copied : IsKept (copy_bytes p.filesz p.vaddr (base + p.offset) m) =
          λ i below. copied-other p m (u32 (base + i)) (omega arith) (off i below) ∙ kept i below in
        ap (λ q. zeroed q.vaddr (copied_by q m) (phdr_at (file_at (copied_by q m) base) o))
          (phdr_at-kept m kept o header_inside)
        ∙ ap (zeroed p.vaddr (copied_by p m)) (phdr_at-kept (copied_by p m) copied o header_inside)

    pub copy_segment-other :
        (a : ℕ) → a < 2 ^ 32 → ¬ Covers (phdr_at file o) a → copy_segment base o m a ≡ m a
    copy_segment-other a word far =
        ap (λ (n : Buffer). n a) copy_segment-placed
        ∙ placed-other (phdr_at file o) m a h.stored_word word far

    pub copy_segment-image :
        (j : ℕ)
        → j < extent (phdr_at file o)
        → copy_segment base o m (u32 ((phdr_at file o).vaddr + j)) ≡ image (phdr_at file o) j
    copy_segment-image j inside =
        ap (λ (n : Buffer). n (u32 ((phdr_at file o).vaddr + j))) copy_segment-placed
        ∙ placed-image (phdr_at file o) m j kept h off inside

    pub copy_segment-IsKept : IsKept (copy_segment base o m)
    copy_segment-IsKept i below =
        copy_segment-other (u32 (base + i)) (omega arith) (off i below) ∙ kept i below
