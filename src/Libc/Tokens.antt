-- ===== src/Libc/Tokens.antt =====
-- `strtok` against the splitting of a text at its delimiters.
use hazle_os.Prelude.{
  ℕ, zero, suc, ◌+◌, ◌<◌, ◌≤◌, ◌≡◌, refl, false, List, [], ◌∷◌, arith, ap, Bool-cases, inl, inr,
  Option, none, some, length, if◌then◌else◌, ◌∙◌, sym,
}
use hazle_os.Libc.{CString, strchr, skip_delim, take_token, token_of, strtok, tokens_from}

-- The fields between delimiters, the empty ones among them.
abbrev pub cons_head : ℕ → List CString → List CString
cons_head c [] = (c ∷ []) ∷ []
cons_head c (f ∷ fs) = (c ∷ f) ∷ fs

unfoldable pub split : CString → CString → List CString
split delim [] = [] ∷ []
split delim (c ∷ s) =
    let rest = split delim s in if strchr delim c then [] ∷ rest else cons_head c rest

abbrev pub nonempty : List CString → List CString
nonempty [] = []
nonempty ([] ∷ fs) = nonempty fs
nonempty ((c ∷ f) ∷ fs) = (c ∷ f) ∷ nonempty fs

-- The fields that remain behind the null pointer are none.
abbrev rest_fields : CString → Option CString → List CString
rest_fields delim none = []
rest_fields delim (some s) = split delim s

split-take_token :
    (delim s : CString)
    → split delim s ≡ (take_token delim s).0 ∷ rest_fields delim (take_token delim s).1
unfolding split take_token
split-take_token delim [] = refl
split-take_token delim (c ∷ s) = ground (arith, split-take_token delim s)

nonempty-skip_delim :
    (delim s : CString) → nonempty (split delim s) ≡ nonempty (split delim (skip_delim delim s))
unfolding split skip_delim
nonempty-skip_delim delim [] = refl
nonempty-skip_delim delim (c ∷ s) = ground (arith, nonempty-skip_delim delim s)

length-skip_delim-le : (delim s : CString) → length (skip_delim delim s) ≤ length s
unfolding skip_delim
length-skip_delim-le delim [] = omega arith
length-skip_delim-le delim (c ∷ s) = ground (arith, length-skip_delim-le delim s)

-- What `skip_delim` leaves starts with no delimiter.
skip_delim-head :
    (delim s : CString) {c : ℕ} {t : CString} → skip_delim delim s ≡ c ∷ t → strchr delim c ≡ false
unfolding skip_delim
skip_delim-head delim [] e = absurd (cc)
skip_delim-head delim (d ∷ s) e = elim (Bool-cases (strchr delim d)) [
  | inl hit ↦ skip_delim-head delim s (rw hit at e)
  | inr miss ↦ ground arith
]

length-take_token :
    (delim s : CString) {rest : CString}
    → (take_token delim s).1 ≡ some rest
    → length rest < length s
unfolding take_token
length-take_token delim [] e = absurd (cc)
length-take_token delim (c ∷ s) {rest} e = elim (Bool-cases (strchr delim c)) [
  | inl hit ↦ ground arith
  | inr miss ↦ omega (arith, length-take_token delim s (rw miss at e))
]

module _ (delim : CString) where
  -- What `strtok(NULL, delim)` finds in what is left.
  rest_tokens :
      (fuel : ℕ) (saveptr : Option CString)
      → ((r : CString)
          → saveptr ≡ some r
          → tokens_from fuel delim (token_of delim (skip_delim delim r)) ≡ nonempty (split delim r))
      → tokens_from fuel delim (strtok none delim saveptr) ≡ nonempty (rest_fields delim saveptr)
  unfolding strtok tokens_from
  rest_tokens zero none ih = refl
  rest_tokens (suc fuel) none ih = refl
  rest_tokens fuel (some r) ih = ih r refl

  nonempty_token :
      (c : ℕ) (u : CString) (fs : List CString)
      → strchr delim c ≡ false
      → nonempty ((take_token delim (c ∷ u)).0 ∷ fs) ≡ (take_token delim (c ∷ u)).0 ∷ nonempty fs
  unfolding take_token
  nonempty_token c u fs plain = rw plain

  -- From a text that starts with no delimiter.
  first_token :
      (fuel c : ℕ) (u : CString)
      → strchr delim c ≡ false
      → tokens_from fuel delim (strtok none delim (take_token delim (c ∷ u)).1)
        ≡ nonempty (rest_fields delim (take_token delim (c ∷ u)).1)
      → tokens_from (suc fuel) delim (token_of delim (c ∷ u)) ≡ nonempty (split delim (c ∷ u))
  unfolding token_of tokens_from
  first_token fuel c u plain ih =
      ap (λ l. (take_token delim (c ∷ u)).0 ∷ l) ih
      ∙ sym (nonempty_token c u _ plain)
      ∙ ap nonempty (sym (split-take_token delim (c ∷ u)))

  tokens_from-split :
      (fuel : ℕ) (s : CString)
      → length s < fuel
      → tokens_from fuel delim (token_of delim (skip_delim delim s)) ≡ nonempty (split delim s)
  tokens_from-split zero s h = absurd (omega arith)
  tokens_from-split (suc fuel) s h = rw (nonempty-skip_delim delim s) (
      go (skip_delim delim s) (omega (arith, length-skip_delim-le delim s))
        (λ c u. skip_delim-head delim s) (λ r. tokens_from-split fuel r))
    where
      go :
          (t : CString)
          → length t < suc fuel
          → ((c : ℕ) (u : CString) → t ≡ c ∷ u → strchr delim c ≡ false)
          → ((r : CString)
              → length r < fuel
              → tokens_from fuel delim (token_of delim (skip_delim delim r))
                ≡ nonempty (split delim r))
          → tokens_from (suc fuel) delim (token_of delim t) ≡ nonempty (split delim t)
      go [] small plain ih = unfold token_of tokens_from split in refl
      go (c ∷ u) small plain ih = first_token fuel c u (plain c u refl) (
          rest_tokens fuel (take_token delim (c ∷ u)).1
            (λ r e. ih r (omega (arith, length-take_token delim (c ∷ u) e))))

  -- The calls `strtok(text, delim)`, `strtok(NULL, delim)`, … return the fields of the text between
  -- delimiters that are not empty, in order, and then the null pointer.
  pub strtok-split :
      (s : CString) (saveptr : Option CString)
      → tokens_from (length s + 1) delim (strtok (some s) delim saveptr) ≡ nonempty (split delim s)
  unfolding strtok
  strtok-split s saveptr = tokens_from-split (length s + 1) s (omega arith)
