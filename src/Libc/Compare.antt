-- ===== src/Libc/Compare.antt =====
-- The comparisons of lib/string.c tell equal strings from others.
use hazle_os.Prelude.{ℕ, zero, suc, ◌≡◌, refl, ◌↔◌, true, [], ◌∷◌, take, arith}
use hazle_os.Libc.{CString, IsCString, strcmp, strncmp, is_zero}

eq_of_strcmp : (s t : CString) → IsCString s → IsCString t → is_zero (strcmp s t) ≡ true → s ≡ t
unfolding strcmp
eq_of_strcmp [] [] hs ht e = refl
eq_of_strcmp [] (d ∷ t) hs ht e = ground arith
eq_of_strcmp (c ∷ s) [] hs ht e = ground arith
eq_of_strcmp (c ∷ s) (d ∷ t) hs ht e = ground (arith, eq_of_strcmp s t)

strcmp_self : (s : CString) → is_zero (strcmp s s) ≡ true
unfolding strcmp
strcmp_self [] = refl
strcmp_self (c ∷ s) = ground (arith, strcmp_self s)

-- `strcmp` of two C strings returns 0 exactly if they are equal.
pub strcmp-eq_iff :
    (s t : CString) → IsCString s → IsCString t → (is_zero (strcmp s t) ≡ true) ↔ (s ≡ t)
strcmp-eq_iff s t hs ht = (eq_of_strcmp s t hs ht, λ e. rw (← e) (strcmp_self s))

eq_of_strncmp :
    (s t : CString) (n : ℕ)
    → IsCString s
    → IsCString t
    → is_zero (strncmp s t n) ≡ true
    → take n s ≡ take n t
unfolding strncmp
eq_of_strncmp s t zero hs ht e = refl
eq_of_strncmp [] [] (suc n) hs ht e = refl
eq_of_strncmp [] (d ∷ t) (suc n) hs ht e = absurd (ground arith)
eq_of_strncmp (c ∷ s) [] (suc n) hs ht e = absurd (ground arith)
eq_of_strncmp (c ∷ s) (d ∷ t) (suc n) hs ht e = ground (arith, eq_of_strncmp s t n)

strncmp_of_eq : (s t : CString) (n : ℕ) → take n s ≡ take n t → is_zero (strncmp s t n) ≡ true
unfolding strncmp
strncmp_of_eq s t zero e = refl
strncmp_of_eq [] [] (suc n) e = refl
strncmp_of_eq [] (d ∷ t) (suc n) e = absurd (cc)
strncmp_of_eq (c ∷ s) [] (suc n) e = absurd (cc)
strncmp_of_eq (c ∷ s) (d ∷ t) (suc n) e = ground (arith, strncmp_of_eq s t n)

-- `strncmp` of two C strings returns 0 exactly if their first `n` characters agree.
pub strncmp-eq_iff :
    (s t : CString) (n : ℕ)
    → IsCString s
    → IsCString t
    → (is_zero (strncmp s t n) ≡ true) ↔ (take n s ≡ take n t)
strncmp-eq_iff s t n hs ht = (eq_of_strncmp s t n hs ht, strncmp_of_eq s t n)
