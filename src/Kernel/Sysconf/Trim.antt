-- ===== src/Kernel/Sysconf/Trim.antt =====
-- What `trim` takes off a text.
use hazle_os.Prelude.{
  ℕ, zero, suc, ◌<◌, ◌≤◌, ◌≡◌, refl, ap, ◌∙◌, true, false, [], ◌∷◌, arith, take, drop, length,
  get_or, Bool-cases, inl, inr, ◌==◌,
}
use hazle_os.Libc.{CString, strlen, head_char, skip_spaces}
use hazle_os.Kernel.Sysconf.{is_blank, trimmed_length, trim}

-- `t` is the part of `s` from `start` up to `finish`, there are only spaces before it and only
-- blanks behind it, and it neither starts with a space nor ends with a blank.
pub record IsTrimmed (s t : CString) : Type 0 where
  pub start : ℕ
  pub finish : ℕ
  pub value : t ≡ drop start (take finish s)
  pub before : (i : ℕ) → i < start → get_or s i 0 ≡ b' '
  pub behind : (i : ℕ) → finish ≤ i → i < length s → is_blank (get_or s i 0) ≡ true
  pub starts : (head_char t == b' ') ≡ false
  pub ends : (i : ℕ) → suc i ≡ length t → is_blank (get_or t i 0) ≡ false

trimmed_length-le : (n : ℕ) (s : CString) → trimmed_length n s ≤ n
unfolding trimmed_length
trimmed_length-le zero s = omega arith
trimmed_length-le (suc n) s = ground (arith, trimmed_length-le n s)

-- Behind the new length there are blanks only.
trimmed_length-blank :
    (n : ℕ) (s : CString) (i : ℕ) → trimmed_length n s ≤ i → i < n → is_blank (get_or s i 0) ≡ true
unfolding trimmed_length
trimmed_length-blank zero s i low high = absurd (omega arith)
trimmed_length-blank (suc n) s i low high = elim (Bool-cases (i == n)) [
  | inl last ↦ let here : i ≡ n = ground arith in rw here (ground arith)
  | inr other ↦ elim (Bool-cases (is_blank (get_or s n 0))) [
    | inl blank_last ↦ trimmed_length-blank n s i (rw blank_last at low) (ground arith)
    | inr kept ↦ absurd (ground arith)
  ]
]

-- Just before it there is none.
trimmed_length-last :
    (n : ℕ) (s : CString) (i : ℕ) → suc i ≡ trimmed_length n s → is_blank (get_or s i 0) ≡ false
unfolding trimmed_length
trimmed_length-last zero s i e = absurd (omega arith)
trimmed_length-last (suc n) s i e = elim (Bool-cases (is_blank (get_or s n 0))) [
  | inl blank_last ↦ trimmed_length-last n s i (rw blank_last at e)
  | inr kept ↦ let here : i ≡ n = ground arith in rw here kept
]

-- A space within a part of the text stands in the text.
space-take : (n : ℕ) (s : CString) (i : ℕ) → get_or (take n s) i 0 ≡ b' ' → get_or s i 0 ≡ b' '
space-take zero s i e = absurd (omega (arith, e))
space-take (suc n) [] i e = e
space-take (suc n) (c ∷ s) zero e = e
space-take (suc n) (c ∷ s) (suc i) e = space-take n s i e

get_or-take : (n : ℕ) (s : CString) (i : ℕ) → i < n → get_or (take n s) i 0 ≡ get_or s i 0
get_or-take zero s i h = absurd (omega arith)
get_or-take (suc n) [] i h = refl
get_or-take (suc n) (c ∷ s) zero h = refl
get_or-take (suc n) (c ∷ s) (suc i) h = get_or-take n s i (omega arith)

length-take : (n : ℕ) (s : CString) → n ≤ length s → length (take n s) ≡ n
length-take zero s h = refl
length-take (suc n) [] h = absurd (omega arith)
length-take (suc n) (c ∷ s) h = ap suc (length-take n s (omega arith))

-- The spaces that the second loop skips, by their number.
record Skipped (s t : CString) : Type 0 where
  count : ℕ
  value : t ≡ drop count s
  spaces : (i : ℕ) → i < count → get_or s i 0 ≡ b' '
  starts : (head_char t == b' ') ≡ false
  ends : (i : ℕ) → suc i ≡ length t → (j : ℕ) × (suc j ≡ length s) × (get_or t i 0 ≡ get_or s j 0)

skip_spaces-Skipped : (s : CString) → Skipped s (skip_spaces s)
unfolding skip_spaces
skip_spaces-Skipped [] = record {
  count = 0;
  value = refl;
  spaces = λ i h. absurd (omega arith);
  starts = refl;
  ends = λ i e. absurd (omega arith);
}
skip_spaces-Skipped (c ∷ s) = elim (Bool-cases (c == b' ')) [
  | inl space ↦
      let rest = skip_spaces-Skipped s in
      rw space (record {
        count = suc (Skipped.count rest);
        value = Skipped.value rest;
        spaces = one_more (Skipped.count rest) (Skipped.spaces rest) (ground arith);
        starts = Skipped.starts rest;
        ends = λ i e. let (j, last, same) = Skipped.ends rest i e in (suc j, ap suc last, same);
      })
  | inr other ↦ rw other (record {
    count = 0;
    value = refl;
    spaces = λ i h. absurd (omega arith);
    starts = other;
    ends = λ i e. (i, e, refl);
  })
]
  where
    one_more :
        (n : ℕ)
        → ((i : ℕ) → i < n → get_or s i 0 ≡ b' ')
        → c ≡ b' '
        → (i : ℕ) → i < suc n
        → get_or (c ∷ s) i 0 ≡ b' '
    one_more n rest e zero h = e
    one_more n rest e (suc i) h = rest i (omega arith)

-- `trim` leaves the part of a text between the spaces at its start and the blanks at its end.
pub trim-IsTrimmed : (s : CString) → IsTrimmed s (trim s)
unfolding trim
trim-IsTrimmed s =
    let n = trimmed_length (strlen s) s in
    let small = trimmed_length-le (strlen s) s in
    let cut = skip_spaces-Skipped (take n s) in
    record {
      start = Skipped.count cut;
      finish = n;
      value = Skipped.value cut;
      before = λ i h. space-take n s i (Skipped.spaces cut i h);
      behind = trimmed_length-blank (strlen s) s;
      starts = Skipped.starts cut;
      ends = λ i e.
          let (j, last, same) = Skipped.ends cut i e in
          let full = length-take n s small in
          let inside = get_or-take n s j (omega (arith, last, full)) in
          ap (λ c. is_blank c) (same ∙ inside)
          ∙ trimmed_length-last (strlen s) s j (omega (arith, last, full));
    }
