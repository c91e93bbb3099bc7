-- ===== src/Libc/Numbers.antt =====
-- `atoi` reads back what `itoa` writes.
use mathlib.Core.List.{reverse, reverse-append}
use native.Mathlib.Nat.{pow-suc}
use hazle_os.Prelude.{
  ℕ, zero, suc, ◌+◌, ◌-◌, ◌*◌, ◌/◌, ◌%◌, ◌^◌, ◌<◌, ◌≡◌, refl, true, [], ◌∷◌, ◌++◌, arith, ◌==◌, ◌∙◌,
  ap, u32, some, ℤ, pos, negsuc, Bool-cases, inl, inr, lt→ltb, signed32, magnitude,
}
use hazle_os.Libc.{
  CString, is_digit, skip_spaces, atoi_digits, atoi_sign, atoi, digit_char, itoa_digits,
  itoa_unsigned, itoa,
}

abbrev AreDigits : CString → Type 0
AreDigits [] = Unit {0}
AreDigits (c ∷ s) = (is_digit c ≡ true) × AreDigits s

atoi_digits-append :
    (acc : ℕ) (xs ys : CString)
    → AreDigits xs
    → atoi_digits acc (xs ++ ys) ≡ atoi_digits (atoi_digits acc xs) ys
unfolding atoi_digits
atoi_digits-append acc [] ys h = refl
atoi_digits-append acc (x ∷ xs) ys h =
    rw (h.0) (atoi_digits-append (u32 (acc * 10 + (x - b'0'))) xs ys h.1)

AreDigits-append : (xs ys : CString) → AreDigits xs → AreDigits ys → AreDigits (xs ++ ys)
AreDigits-append [] ys hx hy = hy
AreDigits-append (x ∷ xs) ys hx hy = (hx.0, AreDigits-append xs ys hx.1 hy)

digit_char-IsDigit : (d : ℕ) → d < 10 → is_digit (digit_char d) ≡ true
unfolding is_digit digit_char
digit_char-IsDigit d h = ground arith

atoi_digit : (acc d : ℕ) → d < 10 → atoi_digits acc (digit_char d ∷ []) ≡ u32 (acc * 10 + d)
unfolding atoi_digits digit_char
atoi_digit acc d h = ground arith

-- The value and the shape of the digits of a value that the fuel covers.
itoa_digits-atoi :
    (fuel value : ℕ)
    → value < 2 ^ fuel
    → value < 2 ^ 32
    → AreDigits (reverse (itoa_digits fuel value 10))
      × (atoi_digits 0 (reverse (itoa_digits fuel value 10)) ≡ value)
unfolding itoa_digits
itoa_digits-atoi zero value h small = (tt, unfold atoi_digits in omega arith)
itoa_digits-atoi (suc fuel) value h small = elim (Bool-cases (value == 0)) [
  | inl none_left ↦ rw none_left (tt, unfold atoi_digits in ground arith)
  | inr more ↦
      let (digits, e) =
        itoa_digits-atoi fuel (value / 10) (omega (arith, pow-suc 2 fuel)) (omega arith) in
      let low = digit_char (value % 10) in
      let high = reverse (itoa_digits fuel (value / 10) 10) in
      let order : reverse (low ∷ itoa_digits fuel (value / 10) 10) ≡ high ++ (low ∷ []) =
        reverse-append (low ∷ []) (itoa_digits fuel (value / 10) 10) in
      rw (more, order)
        (
          AreDigits-append high (low ∷ []) digits
              (digit_char-IsDigit (value % 10) (omega arith), tt),
          atoi_digits-append 0 high (low ∷ []) digits
              ∙ ap (λ n. atoi_digits n (low ∷ [])) e
              ∙ atoi_digit (value / 10) (value % 10) (omega arith)
              ∙ omega arith,
        )
]

itoa_unsigned-atoi :
    (n : ℕ) → n < 2 ^ 31 → AreDigits (itoa_unsigned n 10) × (atoi_digits 0 (itoa_unsigned n 10) ≡ n)
unfolding itoa_unsigned
itoa_unsigned-atoi n h = elim (Bool-cases (n == 0)) [
  | inl none_left ↦ rw none_left ((unfold is_digit in refl, tt), unfold atoi_digits in ground arith)
  | inr more ↦ rw more (itoa_digits-atoi 32 n (omega arith) (omega arith))
]

atoi-digits : (s : CString) → AreDigits s → atoi s ≡ signed32 (atoi_digits 0 s)
unfolding atoi atoi_sign skip_spaces
atoi-digits [] h = unfold atoi_digits in refl
atoi-digits (c ∷ s) h = unfold is_digit in ground arith

-- For every `int` but the least, `itoa` in base 10 has a text, and `atoi` reads it back.
pub atoi-itoa : (z : ℤ) → magnitude z < 2 ^ 31 → (s : CString) × (itoa z 10 ≡ some s) × (atoi s ≡ z)
unfolding atoi atoi_sign skip_spaces
atoi-itoa (pos n) h =
    let (digits, e) = itoa_unsigned-atoi n h in
    (
      itoa_unsigned n 10,
      unfold itoa in refl,
      atoi-digits (itoa_unsigned n 10) digits ∙ ap signed32 e ∙ ground arith,
    )
atoi-itoa (negsuc n) h =
    let (digits, e) = itoa_unsigned-atoi (n + 1) (omega arith) in
    (
      b'-' ∷ itoa_unsigned (n + 1) 10,
      unfold itoa in rw (lt→ltb (n + 1) (2 ^ 31) (omega arith)),
      ap (λ m. signed32 (u32 (2 ^ 32 - m))) e ∙ ground arith,
    )
