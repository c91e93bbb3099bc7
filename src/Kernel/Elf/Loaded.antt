-- ===== src/Kernel/Elf/Loaded.antt =====
-- What `elf_load` leaves in memory.
use hazle_os.Prelude.{
  ℕ, zero, suc, ◌+◌, ◌≤◌, ◌<◌, ◌^◌, ◌≡◌, ◌≢◌, refl, inl, inr, true, ltb, ◌==◌, Buffer, u32, get16,
  arith, ap, ◌∙◌, Bool-cases, ==_iff, sym,
}
use hazle_os.Kernel.Elf.{phnum, entry, validate, copy_segment, load_segments, load}
use hazle_os.Kernel.Elf.Segment.{
  extent, IsSegment, file, image, IsKept, entry-kept, copy_segment-other, copy_segment-image,
  copy_segment-IsKept,
}
use hazle_os.Kernel.Elf.Steps.{
  header, IsLoadable, Touches, IsApart, IsCopied, step_offset, load_segments-step,
}

module _ (base size : ℕ) (m0 : Buffer) where
  module _ (apart : IsApart base size m0) (whole : 52 ≤ size) where
    further : (i a : ℕ) → ¬ Touches base size m0 i a → ¬ Touches base size m0 (i + 1) a
    further i a far (k, above, loads, covers) = far (k, omega arith, loads, covers)

    load_segments-other :
        (n i : ℕ) (m : Buffer)
        → IsKept base size m0 m
        → IsKept base size m0 (load_segments base size n i m).1
          × ((a : ℕ)
              → a < 2 ^ 32
              → ¬ Touches base size m0 i a
              → (load_segments base size n i m).1 a ≡ m a)
    load_segments-other zero i m kept = unfold load_segments in (kept, λ a word far. refl)
    load_segments-other (suc n) i m kept =
        elim (load_segments-step base size m0 apart whole n i m kept) [
          | inl e ↦ rw e (kept, λ a word far. refl)
          | inr (inl (past, e)) ↦ rw e (kept, λ a word far. refl)
          | inr (inr (inl (other, e))) ↦
              let (still, same) = load_segments-other n (i + 1) m kept in
              rw e (still, λ a word far. same a word (further i a far))
          | inr (inr (inr c)) ↦
              let off = IsApart.off apart i (IsCopied.loadable c) in
              let copy = copy_segment base (step_offset base size m0 apart whole i) m in
              let (still, same) = load_segments-other n (i + 1) copy (
                copy_segment-IsKept base size m0 (step_offset base size m0 apart whole i) m kept
                  (IsCopied.header_inside c) (IsCopied.segment c) off) in
              rw (IsCopied.stepped c) (
                still,
                λ a word far.
                    same a word (further i a far)
                    ∙ copy_segment-other base size m0 (step_offset base size m0 apart whole i) m
                        kept (IsCopied.header_inside c) (IsCopied.segment c) off a word
                        (λ covers. far (i, omega arith, IsCopied.loadable c, covers)),
              )
        ]

    few_headers : phnum (file base size m0) < 2 ^ 16
    unfolding get16
    few_headers =
        omega (arith, IsApart.bytes apart (u32 (base + 44)), IsApart.bytes apart (u32 (base + 45)))

    -- Byte `j` of segment `k` is where it belongs, and its bytes lie in the file.
    abbrev pub IsPlaced : Buffer → (k j : ℕ) → Type 0
    IsPlaced m k j =
        ((header base size m0 k).offset + (header base size m0 k).filesz ≤ size)
        × (m (u32 ((header base size m0 k).vaddr + j))
            ≡ image base size m0 (header base size m0 k) j)

    load_segments-image :
        (n i k j : ℕ) (m : Buffer)
        → i + n ≡ 2 ^ 16
        → IsKept base size m0 m
        → (load_segments base size n i m).0 ≡ true
        → i ≤ k
        → IsLoadable base size m0 k
        → j < extent (header base size m0 k)
        → ¬ Touches base size m0 (k + 1) (u32 ((header base size m0 k).vaddr + j))
        → IsPlaced (load_segments base size n i m).1 k j
    load_segments-image zero i k j m all kept done above loads inside last =
        absurd (omega (arith, few_headers, loads.0))
    load_segments-image (suc n) i k j m all kept done above loads inside last =
        elim (load_segments-step base size m0 apart whole n i m kept) [
          | inl e ↦ absurd (cc (ap (λ r. r.0) e))
          | inr (inl (past, e)) ↦ absurd (omega (arith, loads.0))
          | inr (inr (inl (other, e))) ↦ elim (Bool-cases (i == k)) [
            | inl here ↦ absurd (other (rw ((==_iff i k).0 here) loads.1))
            | inr there ↦ rw e (
                load_segments-image n (i + 1) k j m (omega arith) kept
                  (ap (λ r. r.0) (sym e) ∙ done) (ground arith) loads inside last)
          ]
          | inr (inr (inr c)) ↦
              let e = IsCopied.stepped c in
              let off = IsApart.off apart i (IsCopied.loadable c) in
              let copy = copy_segment base (step_offset base size m0 apart whole i) m in
              let still =
                copy_segment-IsKept base size m0 (step_offset base size m0 apart whole i) m kept
                  (IsCopied.header_inside c) (IsCopied.segment c) off in
              elim (Bool-cases (i == k)) [
                | inr there ↦ rw e (
                    load_segments-image n (i + 1) k j copy (omega arith) still
                      (ap (λ r. r.0) (sym e) ∙ done) (ground arith) loads inside last)
                | inl here ↦
                    let same : i ≡ k = (==_iff i k).0 here in
                    rw (e, sym same)
                      (
                        IsSegment.within (IsCopied.segment c),
                        (load_segments-other n (i + 1) copy still).1
                              (u32 ((header base size m0 i).vaddr + j)) (omega arith)
                              (rw (sym same) at last)
                            ∙ copy_segment-image base size m0
                                (step_offset base size m0 apart whole i) m kept
                                (IsCopied.header_inside c) (IsCopied.segment c) off j
                                (rw (sym same) at inside),
                      )
              ]
        ]

  validate-whole : (b : Buffer) → validate b size ≡ true → 52 ≤ size
  unfolding validate
  validate-whole b valid = elim (Bool-cases (ltb size 52)) [
    | inl short ↦ let never = rw (short, validate) at valid in absurd (cc)
    | inr long ↦ ground (arith, long)
  ]

  -- `elf_load` leaves every address that no loadable segment covers, whether it succeeds or not. A
  -- segment may run on from the end of the 32 bits to their start. The file lies in the memory; its
  -- headers and segments do not wrap within the file, and no segment covers a byte of it.
  pub load-other :
      (a : ℕ)
      → IsApart base size m0
      → a < 2 ^ 32
      → ¬ Touches base size m0 0 a
      → (load base size m0).1 a ≡ m0 a
  unfolding load
  load-other a apart word far = elim (Bool-cases (validate (file base size m0) size)) [
    | inr bad ↦ rw bad refl
    | inl valid ↦ rw valid (
        (load_segments-other apart (validate-whole _ valid) (2 ^ 16) 0 m0 (λ o below. refl)).1 a
          word far)
  ]

  -- If `elf_load` does not return 0, the header is valid, it returns the entry point, and byte `j` of
  -- each loadable segment, whose bytes lie in the file, is in memory at the 32-bit address
  -- `vaddr + j`: the file's byte within `filesz`, 0 up to `memsz`. This is said of an address that no
  -- later loadable segment covers. The file lies in the memory; its headers and segments do not wrap
  -- within the file, and no segment covers a byte of it.
  pub load-image :
      IsApart base size m0
      → (load base size m0).0 ≢ 0
      → (validate (file base size m0) size ≡ true)
        × ((load base size m0).0 ≡ entry (file base size m0))
        × ((k j : ℕ)
            → IsLoadable base size m0 k
            → j < extent (header base size m0 k)
            → ¬ Touches base size m0 (k + 1) (u32 ((header base size m0 k).vaddr + j))
            → ((header base size m0 k).offset + (header base size m0 k).filesz ≤ size)
              × ((load base size m0).1 (u32 ((header base size m0 k).vaddr + j))
                  ≡ image base size m0 (header base size m0 k) j))
  unfolding load
  load-image apart ran = elim (Bool-cases (validate (file base size m0) size)) [
    | inr bad ↦ absurd (rw bad at ran refl)
    | inl valid ↦ elim (Bool-cases (load_segments base size (2 ^ 16) 0 m0).0) [
      | inr failed ↦ absurd (rw (valid, failed) at ran refl)
      | inl done ↦
          let whole = validate-whole (file base size m0) valid in
          let (kept, same) = load_segments-other apart whole (2 ^ 16) 0 m0 (λ o below. refl) in
          rw (valid, done)
            (
              refl,
              entry-kept base size m0 (load_segments base size (2 ^ 16) 0 m0).1 kept whole,
              λ k j loads inside last.
                  load_segments-image apart whole (2 ^ 16) 0 k j m0 refl (λ o below. refl) done
                    (omega arith) loads inside last,
            )
    ]
  ]
