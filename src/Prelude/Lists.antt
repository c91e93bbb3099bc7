-- ===== src/Prelude/Lists.antt =====
-- C arrays and strings as lists with native indices.
use Prim.Native.Nat.{ℕ, zero, suc, ◌+◌, ◌-◌, ◌<◌, ◌≤◌}
use mathlib.Core.Path.{◌≡◌, refl, ap, sym, ◌∙◌}
use mathlib.Core.Logic.{◌≢◌}
use mathlib.Core.List.{List, [], ◌∷◌, ◌++◌}
use mathlib.Core.Option.{Option, none, some}
use native.Mathlib.Omega.{arith}

module _ {ℓ} {A : Type ℓ} where
  abbrev pub length : List A → ℕ
  length [] = 0
  length (x ∷ xs) = suc (length xs)

  abbrev pub get_or : List A → ℕ → A → A
  get_or [] i d = d
  get_or (x ∷ xs) zero d = x
  get_or (x ∷ xs) (suc i) d = get_or xs i d

  abbrev pub get : List A → ℕ → Option A
  get [] i = none
  get (x ∷ xs) zero = some x
  get (x ∷ xs) (suc i) = get xs i

  abbrev pub set : List A → ℕ → A → List A
  set [] i v = []
  set (x ∷ xs) zero v = v ∷ xs
  set (x ∷ xs) (suc i) v = x ∷ set xs i v

  abbrev pub take : ℕ → List A → List A
  take zero xs = []
  take (suc n) [] = []
  take (suc n) (x ∷ xs) = x ∷ take n xs

  abbrev pub drop : ℕ → List A → List A
  drop zero xs = xs
  drop (suc n) [] = []
  drop (suc n) (x ∷ xs) = drop n xs

  abbrev pub replicate : ℕ → A → List A
  replicate zero a = []
  replicate (suc n) a = a ∷ replicate n a

  abbrev pub All {κ} : (A → Type κ) → List A → Type κ
  All P [] = Unit
  All P (x ∷ xs) = P x × All P xs

  pub length-append : (xs ys : List A) → length (xs ++ ys) ≡ length xs + length ys
  length-append [] ys = omega arith
  length-append (x ∷ xs) ys = omega (arith, length-append xs ys)

  pub length-set : (xs : List A) (i : ℕ) (v : A) → length (set xs i v) ≡ length xs
  length-set [] i v = refl
  length-set (x ∷ xs) zero v = refl
  length-set (x ∷ xs) (suc i) v = ap suc (length-set xs i v)

  pub length-replicate : (n : ℕ) (a : A) → length (replicate n a) ≡ n
  length-replicate zero a = refl
  length-replicate (suc n) a = ap suc (length-replicate n a)

  pub length-take-le : (n : ℕ) (xs : List A) → length (take n xs) ≤ n
  length-take-le zero xs = omega arith
  length-take-le (suc n) [] = omega arith
  length-take-le (suc n) (x ∷ xs) = omega (arith, length-take-le n xs)

  pub take_all : (n : ℕ) (xs : List A) → length xs ≤ n → take n xs ≡ xs
  take_all zero [] h = refl
  take_all zero (x ∷ xs) h = absurd (omega arith)
  take_all (suc n) [] h = refl
  take_all (suc n) (x ∷ xs) h = ap (λ t. x ∷ t) (take_all n xs (omega arith))

  pub get_or-set_self :
      (xs : List A) (i : ℕ) (v d : A) → i < length xs → get_or (set xs i v) i d ≡ v
  get_or-set_self [] i v d h = absurd (omega arith)
  get_or-set_self (x ∷ xs) zero v d h = refl
  get_or-set_self (x ∷ xs) (suc i) v d h = get_or-set_self xs i v d (omega arith)

  pub get_or-set_ne :
      (xs : List A) (i j : ℕ) (v d : A) → i ≢ j → get_or (set xs i v) j d ≡ get_or xs j d
  get_or-set_ne [] i j v d ne = refl
  get_or-set_ne (x ∷ xs) zero zero v d ne = absurd (ne refl)
  get_or-set_ne (x ∷ xs) zero (suc j) v d ne = refl
  get_or-set_ne (x ∷ xs) (suc i) zero v d ne = refl
  get_or-set_ne (x ∷ xs) (suc i) (suc j) v d ne = get_or-set_ne xs i j v d (λ e. ne (ap suc e))

  pub get_past : (xs : List A) (i : ℕ) → length xs ≤ i → get xs i ≡ none
  get_past [] i h = refl
  get_past (x ∷ xs) zero h = absurd (omega arith)
  get_past (x ∷ xs) (suc i) h = get_past xs i (omega arith)

module _ {ℓ} {A : Type ℓ} where
  pub append_assoc : (k l m : List A) → (k ++ l) ++ m ≡ k ++ (l ++ m)
  append_assoc [] l m = refl
  append_assoc (x ∷ k) l m = ap (λ n. x ∷ n) (append_assoc k l m)

  pub append_nil : (k : List A) → k ++ [] ≡ k
  append_nil [] = refl
  append_nil (x ∷ k) = ap (λ n. x ∷ n) (append_nil k)

  pub take_none : (n : ℕ) (k : List A) → n ≡ 0 → take n k ≡ []
  take_none zero k e = refl
  take_none (suc n) k e = absurd (omega arith)

  pub take-append : (n : ℕ) (k l : List A) → take n (k ++ l) ≡ take n k ++ take (n - length k) l
  take-append zero [] l = refl
  take-append zero (x ∷ k) l = sym (take_none (0 - length (x ∷ k)) l (omega arith))
  take-append (suc n) [] l =
      let all_left : suc n ≡ suc n - 0 = omega arith in ap (λ m. take m l) all_left
  take-append (suc n) (x ∷ k) l =
      let left : n - length k ≡ suc n - length (x ∷ k) = omega arith in
      ap (λ m. x ∷ m) (take-append n k l ∙ ap (λ m. take n k ++ take m l) left)

  pub rest-take : (n : ℕ) (k : List A) → n - length (take n k) ≡ n - length k
  rest-take zero k = omega arith
  rest-take (suc n) [] = omega arith
  rest-take (suc n) (x ∷ k) = omega (arith, rest-take n k)
