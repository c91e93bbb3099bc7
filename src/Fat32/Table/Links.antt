-- ===== src/Fat32/Table/Links.antt =====
-- Cluster chains as lists of links, and how many entries are free.
use hazle_os.Prelude.{
  ℕ, zero, suc, ◌+◌, ◌≤◌, ◌<◌, ◌≡◌, ◌≢◌, refl, inl, inr, Bool, true, false, arith, List, [], ◌∷◌,
  length, ◌==◌, if◌then◌else◌, Bool-cases, ap, ==_iff, ==_refl,
}
use hazle_os.Fat32.{free_cluster}
use hazle_os.Fat32.Table.{in_chain}
use hazle_os.Fat32.Table.Alloc.{free_count, free_count_ext}

-- The clusters that the links `next` lead through from `c`, up to a mark that ends the chain.
pub data Chain (next : ℕ → ℕ) : ℕ → List ℕ → Type 0 where
  stop : {c : ℕ} → in_chain c ≡ false → Chain next c []
  link : {c : ℕ} {xs : List ℕ} → in_chain c ≡ true → Chain next (next c) xs → Chain next c (c ∷ xs)

abbrev pub contains : ℕ → List ℕ → Bool
contains a [] = false
contains a (x ∷ xs) = if a == x then true else contains a xs

-- The chain from a cluster is one list.
pub Chain-unique :
    {next : ℕ → ℕ} {c : ℕ} {xs ys : List ℕ} → Chain next c xs → Chain next c ys → xs ≡ ys
Chain-unique (stop e) (stop e') = refl
Chain-unique (stop e) (link e' h') = absurd (cc)
Chain-unique (link e h) (stop e') = absurd (cc)
Chain-unique (link {c} e h) (link e' h') = ap (λ l. c ∷ l) (Chain-unique h h')

-- From a member the chain is a part of it, and so no cluster comes twice.
pub suffix :
    {next : ℕ → ℕ} {c : ℕ} {xs : List ℕ} (a : ℕ)
    → Chain next c xs
    → contains a xs ≡ true
    → (ys : List ℕ) × Chain next a ys × (length ys ≤ length xs)
suffix a (stop e) h = cc
suffix a (link {c} {xs} e rest) h = elim (Bool-cases (a == c)) [
  | inl same ↦ (c ∷ xs, rw ((==_iff a c).0 same) (link e rest), omega arith)
  | inr other ↦ let (ys, chain, small) = suffix a rest (rw other at h) in (ys, chain, omega arith)
]

pub no_return :
    {next : ℕ → ℕ} {xs : List ℕ} (c : ℕ)
    → in_chain c ≡ true
    → Chain next (next c) xs
    → contains c xs ≡ false
no_return {xs} c e rest = elim (Bool-cases (contains c xs)) [
  | inl again ↦
      let (ys, chain, small) = suffix c rest again in
      absurd (omega (arith, ap length (Chain-unique chain (link e rest))))
  | inr new ↦ new
]

-- A change of links outside the chain leaves it.
pub Chain-ext :
    {next other : ℕ → ℕ} {c : ℕ} {xs : List ℕ}
    → ((k : ℕ) → contains k xs ≡ true → other k ≡ next k)
    → Chain next c xs
    → Chain other c xs
Chain-ext same (stop e) = stop e
Chain-ext {other} same (link {c} {xs} e rest) =
    link e (rw (same c (rw (==_refl c))) (Chain-ext (λ k h. same k (ground arith)) rest))

-- Freeing a cluster that is in use counts one more.
pub free_count_freed :
    (f h : ℕ → ℕ) (c lo n : ℕ)
    → ((k : ℕ) → lo ≤ k → k < lo + n → h k ≡ (if k == c then free_cluster else f k))
    → f c ≢ free_cluster
    → lo ≤ c
    → c < lo + n
    → free_count h lo n ≡ free_count f lo n + 1
free_count_freed f h c lo zero e used above below = absurd (omega arith)
free_count_freed f h c lo (suc n) e used above below = elim (Bool-cases (lo == c)) [
  | inl same ↦ ground (
    arith,
    e lo (omega arith) (omega arith),
    free_count_ext h f (lo + 1) n (λ k a b. ground (arith, e k (omega arith) (omega arith))),
  )
  | inr other ↦ ground (
    arith,
    e lo (omega arith) (omega arith),
    free_count_freed f h c (lo + 1) n (λ k a b. e k (omega arith) (omega arith)) used (ground arith)
        (omega arith),
  )
]
