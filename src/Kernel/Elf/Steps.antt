-- ===== src/Kernel/Elf/Steps.antt =====
-- One step of the loop of `elf_load`, as long as the file is in memory as it was.
use hazle_os.Prelude.{
  ℕ, suc, ◌+◌, ◌≤◌, ◌<◌, ◌^◌, ◌≡◌, ◌≢◌, refl, ◌⊎◌, inl, inr, true, false, ltb, ◌==◌, Buffer,
  IsBytes, u32, get32-lt, arith, ap, ap₂, ◌*◌, ◌∙◌, Bool-cases, ==_iff,
}
use hazle_os.Kernel.Elf.{
  Phdr, file_at, phdr_at, phdr_offset, pt_load, phnum, copy_segment, Step, finished, broken,
  skipped, copied, judge_header, load_segments,
}
use hazle_os.Kernel.Elf.Segment.{
  Covers, IsSegment, file, IsKept, IsOff, phdr_at-kept, phnum-kept, phoff-kept, phentsize-kept,
}

module _ (base size : ℕ) (m0 : Buffer) where
  -- Header `k` of the file as it is at the start.
  abbrev pub header : ℕ → Phdr
  header k = phdr_at (file base size m0) (phdr_offset (file base size m0) k)

  -- A header that the loop copies, if it comes to it.
  abbrev pub IsLoadable : ℕ → Type 0
  IsLoadable k = (k < phnum (file base size m0)) × ((header k).type ≡ pt_load)

  -- The loadable headers from index `i` on that fill the address.
  abbrev pub Touches : (i a : ℕ) → Type 0
  Touches i a = (k : ℕ) × (i ≤ k) × IsLoadable k × Covers (header k) a

  -- A program of whose headers and segments none wraps around the 32 bits in the file, and whose
  -- segments stay off the file, which lies in the memory that they are copied to.
  pub record IsApart : Type 0 where
    pub bytes : IsBytes m0
    pub headers :
        (k : ℕ) → k < phnum (file base size m0) → phdr_offset (file base size m0) k + 32 < 2 ^ 32
    pub sources : (k : ℕ) → IsLoadable k → (header k).offset + (header k).filesz < 2 ^ 32
    pub off : (k : ℕ) → IsLoadable k → IsOff base size m0 (header k)

  module _ (apart : IsApart) (whole : 52 ≤ size) where
    abbrev pub step_offset : ℕ → ℕ
    step_offset i = phdr_offset (file base size m0) i

    -- What the loop does at one header, as long as the file is in memory.
    pub record IsCopied (n i : ℕ) (m : Buffer) : Type 0 where
      pub loadable : IsLoadable i
      pub header_inside : step_offset i + 32 ≤ size
      pub segment : IsSegment size (header i)
      pub stepped :
          load_segments base size (suc n) i m
          ≡ load_segments base size n (i + 1) (copy_segment base (step_offset i) m)

    same_offset :
        (i : ℕ) (m : Buffer)
        → IsKept base size m0 m
        → phdr_offset (file_at m base) i ≡ step_offset i
    same_offset i m kept =
        ap₂ (λ a b. u32 (a + i * b)) (phoff-kept base size m0 m kept whole)
          (phentsize-kept base size m0 m kept whole)

    abbrev judged : ℕ → Step
    judged i = judge_header size (phnum (file base size m0)) i (step_offset i) (header i)

    -- The loop judges the header that was there at the start.
    judge_header-kept :
        (i : ℕ) (m : Buffer)
        → IsKept base size m0 m
        → judge_header size
            (phnum (file base size m0))
            i
            (step_offset i)
            (phdr_at (file_at m base) (step_offset i))
          ≡ judged i
    unfolding judge_header
    judge_header-kept i m kept = elim (Bool-cases (ltb i (phnum (file base size m0)))) [
      | inr behind ↦ rw (behind, judge_header) refl
      | inl before ↦ elim (Bool-cases (ltb size (u32 (step_offset i + 32)))) [
        | inl short ↦ rw (before, short, judge_header) refl
        | inr long ↦
            let inside : step_offset i + 32 ≤ size =
              ground (arith, long, IsApart.headers apart i (ground arith)) in
            ap (judge_header size (phnum (file base size m0)) i (step_offset i))
              (phdr_at-kept base size m0 m kept (step_offset i) inside)
      ]
    ]

    seen :
        (i : ℕ) (m : Buffer)
        → IsKept base size m0 m
        → judge_header size
            (phnum (file_at m base))
            i
            (phdr_offset (file_at m base) i)
            (phdr_at (file_at m base) (phdr_offset (file_at m base) i))
          ≡ judged i
    seen i m kept =
        ap
          (λ count.
            judge_header size count i (phdr_offset (file_at m base) i)
              (phdr_at (file_at m base) (phdr_offset (file_at m base) i)))
          (phnum-kept base size m0 m kept whole)
        ∙ ap (λ o. judge_header size (phnum (file base size m0)) i o (phdr_at (file_at m base) o))
            (same_offset i m kept)
        ∙ judge_header-kept i m kept

    pub load_segments-step :
        (n i : ℕ) (m : Buffer)
        → IsKept base size m0 m
        → (load_segments base size (suc n) i m ≡ (false, m))
          ⊎ ((phnum (file base size m0) ≤ i) × (load_segments base size (suc n) i m ≡ (true, m)))
          ⊎ (((header i).type ≢ pt_load)
              × (load_segments base size (suc n) i m ≡ load_segments base size n (i + 1) m))
          ⊎ IsCopied n i m
    unfolding load_segments judge_header
    load_segments-step n i m kept = elim (Bool-cases (ltb i (phnum (file base size m0)))) [
      | inr behind ↦
          let done : judged i ≡ finished = rw (behind, judge_header) refl in
          inr (inl (ground (arith, behind), rw (seen i m kept ∙ done, load_segments) refl))
      | inl before ↦ elim (Bool-cases (ltb size (u32 (step_offset i + 32)))) [
        | inl short ↦
            let bad : judged i ≡ broken = rw (before, short, judge_header) refl in
            inl (rw (seen i m kept ∙ bad, load_segments) refl)
        | inr long ↦ elim (Bool-cases ((header i).type == pt_load)) [
          | inr other ↦
              let skip : judged i ≡ skipped = rw (before, long, other, judge_header) refl in
              inr (
                inr (
                  inl (
                    λ e. absurd (cc ((==_iff (header i).type pt_load).1 e)),
                    rw (seen i m kept ∙ skip, load_segments) refl,
                  )))
          | inl loads ↦ elim (Bool-cases (ltb size (u32 ((header i).offset + (header i).filesz)))) [
            | inl cut ↦
                let bad : judged i ≡ broken = rw (before, long, loads, cut, judge_header) refl in
                inl (rw (seen i m kept ∙ bad, load_segments) refl)
            | inr fits ↦
                let copy : judged i ≡ copied = rw (before, long, loads, fits, judge_header) refl in
                let loadable : IsLoadable i =
                  (ground (arith, before), (==_iff (header i).type pt_load).0 loads) in
                inr (
                  inr (
                    inr (record {
                      loadable = loadable;
                      header_inside =
                          ground (arith, long, IsApart.headers apart i (ground (arith, before)));
                      segment = record {
                        stored_word = get32-lt (file base size m0) (step_offset i + 16) file_bytes;
                        memory_word = get32-lt (file base size m0) (step_offset i + 20) file_bytes;
                        within = ground (arith, fits, IsApart.sources apart i loadable);
                      };
                      stepped =
                          rw (seen i m kept ∙ copy, load_segments)
                            (ap (λ o. load_segments base size n (i + 1) (copy_segment base o m))
                              (same_offset i m kept));
                    })))
          ]
        ]
      ]
    ]
      where
        file_bytes : IsBytes (file base size m0)
        file_bytes o = IsApart.bytes apart (u32 (base + o))
