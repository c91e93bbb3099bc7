-- ===== src/Libc/Copy.antt =====
-- The copies of lib/string.c: which bytes they write, and with what.
use hazle_os.Prelude.{
  leb, ltb, ◌==◌, ◌&&◌, if◌then◌else◌, true, false, Bool-cases, inl, inr, ap, ◌∙◌, ◌-◌, ◌%◌, ◌^◌,
  ◌<◌, ◌≤◌, ℕ, zero, suc, ◌+◌, ◌≡◌, refl, ◌⊎◌, [], ◌∷◌, arith, Buffer, get_or,
}
use hazle_os.Libc.{CString, strncpy, memcpy, memset}

strncpy-inside :
    (dest : Buffer) (at : ℕ) (s : CString) (n j : ℕ)
    → j < n
    → strncpy dest at s n (at + j) ≡ get_or s j 0
unfolding strncpy
strncpy-inside dest at s zero j h = absurd (omega arith)
strncpy-inside dest at [] (suc n) zero h = ground arith
strncpy-inside dest at (c ∷ s) (suc n) zero h = ground arith
strncpy-inside dest at [] (suc n) (suc j) h = ground (arith, strncpy-inside dest (at + 1) [] n j)
strncpy-inside dest at (c ∷ s) (suc n) (suc j) h =
    ground (arith, strncpy-inside dest (at + 1) s n j)

strncpy-outside :
    (dest : Buffer) (at : ℕ) (s : CString) (n j : ℕ)
    → (j < at) ⊎ (at + n ≤ j)
    → strncpy dest at s n j ≡ dest j
unfolding strncpy
strncpy-outside dest at s zero j h = refl
strncpy-outside dest at [] (suc n) j h = ground (arith, strncpy-outside dest (at + 1) [] n j)
strncpy-outside dest at (c ∷ s) (suc n) j h = ground (arith, strncpy-outside dest (at + 1) s n j)

-- `strncpy` writes `n` bytes and no other: the text's characters and then zero bytes. A text of `n`
-- characters or more is cut, and then no zero byte ends it.
pub strncpy_lem :
    (dest : Buffer) (at : ℕ) (s : CString) (n : ℕ)
    → ((j : ℕ) → j < n → strncpy dest at s n (at + j) ≡ get_or s j 0)
      × ((j : ℕ) → (j < at) ⊎ (at + n ≤ j) → strncpy dest at s n j ≡ dest j)
strncpy_lem dest at s n = (strncpy-inside dest at s n, strncpy-outside dest at s n)

-- `memcpy` writes `n` bytes of the source and no other.
pub memcpy-value :
    (dest : Buffer) (to : ℕ) (src : Buffer) (from n j : ℕ)
    → memcpy dest to src from n j
      ≡ (if leb to j && ltb j (to + n) then src (from + (j - to)) else dest j)
unfolding memcpy
memcpy-value dest to src from zero j = ground arith
memcpy-value dest to src from (suc n) j = elim (Bool-cases (j == to)) [
  | inl here ↦ rw here (ground (arith, ap src (start here)))
  | inr there ↦ rw there (memcpy-value dest (to + 1) src (from + 1) n j ∙ shift there)
]
  where
    start : (j == to) ≡ true → from ≡ from + (j - to)
    start e = ground arith

    shift :
        (j == to) ≡ false
        → (if leb (to + 1) j && ltb j (to + 1 + n) then src (from + 1 + (j - (to + 1))) else dest j)
          ≡ (if leb to j && ltb j (to + suc n) then src (from + (j - to)) else dest j)
    shift e = elim (Bool-cases (leb to j && ltb j (to + suc n))) [
      | inl inside ↦
          let below : (leb (to + 1) j && ltb j (to + 1 + n)) ≡ true = ground arith in
          rw (inside, below) (ap src (ground arith))
      | inr outside ↦
          let above : (leb (to + 1) j && ltb j (to + 1 + n)) ≡ false = ground arith in
          rw (outside, above) refl
    ]

-- `memset` writes `n` times the byte and nothing else.
pub memset-value :
    (dest : Buffer) (at value n j : ℕ)
    → memset dest at value n j ≡ (if leb at j && ltb j (at + n) then value % 2 ^ 8 else dest j)
unfolding memset
memset-value dest at value zero j = ground arith
memset-value dest at value (suc n) j = ground (arith, memset-value dest (at + 1) value n j)

pub memcpy-inside :
    (dest : Buffer) (to : ℕ) (src : Buffer) (from n j : ℕ)
    → j < n
    → memcpy dest to src from n (to + j) ≡ src (from + j)
memcpy-inside dest to src from n j h =
    let inside : (leb to (to + j) && ltb (to + j) (to + n)) ≡ true = ground arith in
    memcpy-value dest to src from n (to + j) ∙ rw inside (ap src (omega arith))

pub memcpy-outside :
    (dest : Buffer) (to : ℕ) (src : Buffer) (from n j : ℕ)
    → (j < to) ⊎ (to + n ≤ j)
    → memcpy dest to src from n j ≡ dest j
memcpy-outside dest to src from n j h =
    let outside : (leb to j && ltb j (to + n)) ≡ false = ground arith in
    memcpy-value dest to src from n j ∙ rw outside refl
