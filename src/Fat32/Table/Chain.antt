-- ===== src/Fat32/Table/Chain.antt =====
-- Cluster chains: `fat32_free_chain` and `fat32_get_chain_length`.
use hazle_os.Prelude.{
  ℕ, zero, suc, ◌+◌, ◌-◌, ◌*◌, ◌^◌, ◌<◌, ◌≡◌, ◌≢◌, refl, inl, inr, true, arith, List, length, some,
  none, ◌==◌, if◌then◌else◌, u32, Bool-cases, ◌∙◌, ap, ==_refl,
}
use hazle_os.Device.{BlockDevice, IsReliable}
use hazle_os.Fat32.{Fs, Volume, free_cluster}
use hazle_os.Fat32.Table.{
  in_chain, get_fat_entry, set_fat_entry, free_chain, chain_length, flush_cache,
}
use hazle_os.Fat32.Table.Coherent.{IsGeometry, InTable, entry, IsCoherent, IsSameTable}
use hazle_os.Fat32.Table.Alloc.{free_count, free_count-le}
use hazle_os.Fat32.Table.Flush.{unchanged, flush_cache-IsSameTable}
use hazle_os.Fat32.Table.Entry.{
  same_entry, get_fat_entry-entry, get_fat_entry-reliable, set_fat_entry-reliable, IsStored,
  set_fat_entry-IsStored, flush_cache-reliable,
}
use hazle_os.Fat32.Table.Load.{trans}
use hazle_os.Fat32.Table.Links.{Chain, stop, link, contains, no_return, Chain-ext, free_count_freed}

module _ {B : BlockDevice} (fs : Fs) (g : IsGeometry fs) (r : IsReliable B) where
  -- The volume after one round of `fat32_free_chain`.
  abbrev freed : ℕ → Volume B → Volume B
  freed c v = (set_fat_entry fs c free_cluster (get_fat_entry fs c v).1).1

  module _ (c : ℕ) (v : Volume B) (h : InTable fs c) (coherent : IsCoherent fs v) where
    read_same : IsSameTable fs v (get_fat_entry fs c v).1
    read_same = (get_fat_entry-entry fs g c v h coherent).0

    freed-IsStored : IsStored fs v (freed c v) c free_cluster
    freed-IsStored =
        let s = set_fat_entry-IsStored fs g r c _ h read_same.coherent free_cluster in
        record {
          coherent = s.coherent;
          stored = λ k hk. ground (arith, s.stored k hk, same_entry fs g k read_same hk);
        }

    free_chain-suc :
        (fuel : ℕ)
        → in_chain c ≡ true
        → free_chain fs (suc fuel) c v ≡ free_chain fs fuel (entry fs v c) (freed c v)
    unfolding free_chain
    free_chain-suc fuel e =
        rw (e, set_fat_entry-reliable fs g r c _ h read_same.coherent free_cluster)
          (ap (λ n. free_chain fs fuel n (freed c v))
            (get_fat_entry-reliable fs g r c v h coherent))

  -- On a reliable device `fat32_free_chain` on a finite chain within the table returns true, with
  -- the free entry in every cluster of the chain and every other entry as it was.
  pub free_chain-frees :
      (fuel : ℕ) {c : ℕ} {xs : List ℕ} (v : Volume B)
      → IsCoherent fs v
      → Chain (entry fs v) c xs
      → ((k : ℕ) → contains k xs ≡ true → InTable fs k)
      → length xs < fuel
      → (w : Volume B) × (free_chain fs fuel c v ≡ some (true, w))
        × IsCoherent fs w
        × ((k : ℕ)
            → InTable fs k
            → entry fs w k ≡ (if contains k xs then free_cluster else entry fs v k))
  free_chain-frees zero v coherent chain h small = absurd (omega arith)
  free_chain-frees (suc fuel) {c} v coherent (stop e) h small =
      let s = flush_cache-IsSameTable fs g v coherent in
      (
        (flush_cache fs v).1,
        unfold free_chain in
            rw e (ap (λ b. some (b, (flush_cache fs v).1)) (flush_cache-reliable fs g r v)),
        s.coherent,
        λ k hk. same_entry fs g k s hk,
      )
  free_chain-frees (suc fuel) v coherent (link {c} {xs} e rest) h small =
      let (w, ran, coherent', entries) =
        free_chain-frees fuel (freed c v) stored.coherent
          (Chain-ext
            (λ k hk. ground (arith, stored.stored k (h k (ground arith)), no_return c e rest)) rest)
          (λ k hk. h k (ground arith)) (omega arith) in
      (
        w,
        free_chain-suc c v in_table coherent fuel e ∙ ran,
        coherent',
        λ k hk. ground (arith, entries k hk, stored.stored k hk),
      )
    where
      in_table : InTable fs c
      in_table = h c (rw (==_refl c))

      stored : IsStored fs v (freed c v) c free_cluster
      stored = freed-IsStored c v in_table coherent

  -- Links that lead out of the table or past the marks are none.
  abbrev IsClosed : (ℕ → ℕ) → Type 0
  IsClosed next = (k : ℕ) → InTable fs k → in_chain (next k) ≡ true → InTable fs (next k)

  -- How many entries of the table are in use.
  abbrev used : Volume B → ℕ
  used v = fs.sectors_per_fat * 128 - free_count (entry fs v) 0 (fs.sectors_per_fat * 128)

  freed-IsClosed :
      (c : ℕ) (v : Volume B)
      → IsStored fs v (freed c v) c free_cluster
      → IsClosed (entry fs v)
      → IsClosed (entry fs (freed c v))
  freed-IsClosed c v s closed k hk links = elim (Bool-cases (k == c)) [
    | inl same ↦
        let gone : entry fs (freed c v) k ≡ free_cluster = s.stored k hk ∙ rw same in
        absurd (cc (ap in_chain gone))
    | inr other ↦
        let kept : entry fs (freed c v) k ≡ entry fs v k = s.stored k hk ∙ rw other in
        rw kept (closed k hk (rw kept at links))
  ]

  freed-used :
      (c : ℕ) (v : Volume B)
      → InTable fs c
      → IsStored fs v (freed c v) c free_cluster
      → entry fs v c ≢ free_cluster
      → used (freed c v) + 1 ≡ used v
  freed-used c v h s in_use = omega (
    arith,
    free_count_freed (entry fs v) (entry fs (freed c v)) c 0 (fs.sectors_per_fat * 128)
        (λ k a b. s.stored k (omega arith)) in_use (omega arith) (omega arith),
    free_count-le (entry fs (freed c v)) 0 (fs.sectors_per_fat * 128),
  )

  free_chain-ends :
      (fuel c : ℕ) (v : Volume B)
      → IsCoherent fs v
      → (in_chain c ≡ true → InTable fs c)
      → IsClosed (entry fs v)
      → 0 < fuel
      → (in_chain c ≡ true → used v + 1 < fuel)
      → (w : Volume B) × (free_chain fs fuel c v ≡ some (true, w))
  free_chain-ends zero c v coherent h closed pos small = absurd (omega arith)
  free_chain-ends (suc fuel) c v coherent h closed pos small = elim (Bool-cases (in_chain c)) [
    | inr e ↦ (
      (flush_cache fs v).1,
      unfold free_chain in
          rw e (ap (λ b. some (b, (flush_cache fs v).1)) (flush_cache-reliable fs g r v)),
    )
    | inl e ↦
        let s = freed-IsStored c v (h e) coherent in
        let (w, ran) =
          free_chain-ends fuel (entry fs v c) (freed c v) s.coherent (closed c (h e))
            (freed-IsClosed c v s closed) (omega (arith, small e))
            (λ links. omega (
              arith,
              small e,
              freed-used c v (h e) s (λ zero_entry. cc (ap in_chain zero_entry)),
            )) in
        (w, free_chain-suc c v (h e) coherent fuel e ∙ ran)
  ]

  -- On a reliable device `fat32_free_chain` ends, and returns true, on every table whose links
  -- stay within it, also where they run in a circle: two rounds more than the table has entries
  -- are enough.
  pub free_chain-total :
      (c : ℕ) (v : Volume B)
      → IsCoherent fs v
      → (in_chain c ≡ true → InTable fs c)
      → IsClosed (entry fs v)
      → (w : Volume B) × (free_chain fs (fs.sectors_per_fat * 128 + 2) c v ≡ some (true, w))
  free_chain-total c v coherent h closed =
      free_chain-ends (fs.sectors_per_fat * 128 + 2) c v coherent h closed (omega arith)
        (λ links. omega arith)

  chain_length-suc :
      (fuel c count : ℕ) (v : Volume B)
      → InTable fs c
      → IsCoherent fs v
      → in_chain c ≡ true
      → chain_length fs (suc fuel) c count v
        ≡ chain_length fs fuel (entry fs v c) (u32 (count + 1)) (get_fat_entry fs c v).1
  unfolding chain_length
  chain_length-suc fuel c count v h coherent e = rw e (
      ap (λ n. chain_length fs fuel n (u32 (count + 1)) (get_fat_entry fs c v).1)
        (get_fat_entry-reliable fs g r c v h coherent))

  -- On a reliable device `fat32_get_chain_length` adds the number of clusters of a finite chain
  -- within the table to its count, below 2^32, and changes no entry.
  pub chain_length-length :
      (fuel count : ℕ) {c : ℕ} {xs : List ℕ} (v : Volume B)
      → IsCoherent fs v
      → Chain (entry fs v) c xs
      → ((k : ℕ) → contains k xs ≡ true → InTable fs k)
      → length xs < fuel
      → count + length xs < 2 ^ 32
      → (w : Volume B) × (chain_length fs fuel c count v ≡ some (count + length xs, w))
        × IsSameTable fs v w
  chain_length-length zero count v coherent chain h enough small = absurd (omega arith)
  chain_length-length (suc fuel) count v coherent (stop e) h enough small = (
    v,
    unfold chain_length in rw e (ap (λ n. some (n, v)) (omega arith)),
    unchanged fs g v coherent,
  )
  chain_length-length (suc fuel) count v coherent (link {c} {xs} e rest) h enough small =
      let (w, ran, s') =
        chain_length-length fuel (u32 (count + 1)) (get_fat_entry fs c v).1 s.coherent
          (Chain-ext (λ k hk. same_entry fs g k s (h k (ground arith))) rest)
          (λ k hk. h k (ground arith)) (omega arith) (omega arith) in
      (
        w,
        chain_length-suc fuel c count v in_table coherent e
            ∙ ran
            ∙ ap (λ n. some (n, w)) (omega arith),
        trans fs g s s',
      )
    where
      in_table : InTable fs c
      in_table = h c (rw (==_refl c))

      s : IsSameTable fs v (get_fat_entry fs c v).1
      s = read_same c v in_table coherent

  -- `fat32_get_chain_length` has no guard against a circle: on a reliable device, from a
  -- cluster of a set that the links never leave, no amount of fuel gives a result.
  pub chain_length-diverges :
      (P : ℕ → Type 0) (fuel c count : ℕ) (v : Volume B)
      → IsCoherent fs v
      → ((k : ℕ) → P k → InTable fs k × (in_chain k ≡ true) × P (entry fs v k))
      → P c
      → chain_length fs fuel c count v ≡ none
  chain_length-diverges P zero c count v coherent keep p = unfold chain_length in refl
  chain_length-diverges P (suc fuel) c count v coherent keep p =
      let (in_table, links, next) = keep c p in
      let s = read_same c v in_table coherent in
      chain_length-suc fuel c count v in_table coherent links
      ∙ chain_length-diverges P fuel (entry fs v c) (u32 (count + 1)) _ s.coherent
          (λ k pk. let (a, b, d) = keep k pk in (a, b, rw (same_entry fs g k s a) d)) next
