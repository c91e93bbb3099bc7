-- ===== src/Fat32/Directory/Entry/Search.antt =====
-- The searches within one cluster of a directory: which entry they stop at.
use hazle_os.Prelude.{
  ℕ, zero, suc, ◌+◌, ◌*◌, ◌≤◌, ◌<◌, ◌≡◌, ◌≢◌, inl, inr, Bool, true, false, ◌||◌, map, arith, ◌==◌,
  Buffer, Bool-cases, ==_iff,
}
use hazle_os.Libc.{CString, strcmp, is_zero}
use hazle_os.Fat32.Directory.Entry.{
  Scan, ended, missing, at, scan_name, entry_end, entry_free, attributes, entry_name, to_upper,
}

-- Entry `k` is in use, not skipped, and has the name.
abbrev pub Matches : (ℕ → Bool) → CString → Buffer → ℕ → Type 0
Matches skipped name b k =
    (((b (k * 32) == entry_free) || skipped (attributes b (k * 32))) ≡ false)
    × (is_zero (strcmp name (map to_upper (entry_name b (k * 32)))) ≡ true)

-- None of the entries from `lo` up to `hi` ends the directory or matches.
abbrev pub Passed : (ℕ → Bool) → CString → Buffer → (lo hi : ℕ) → Type 0
Passed skipped name b lo hi =
    (k : ℕ) → lo ≤ k → k < hi → (b (k * 32) ≢ entry_end) × (¬ Matches skipped name b k)

-- What the search comes to: the first match before the end mark, the end mark, or neither.
abbrev pub Searched : (ℕ → Bool) → CString → Buffer → (lo hi : ℕ) → Scan → Type 0
Searched skipped name b lo hi missing = Passed skipped name b lo hi
Searched skipped name b lo hi ended =
    (k : ℕ) × (lo ≤ k) × (k < hi) × (b (k * 32) ≡ entry_end) × Passed skipped name b lo k
Searched skipped name b lo hi (at k) =
    (lo ≤ k)
    × (k < hi)
    × (b (k * 32) ≢ entry_end)
    × Matches skipped name b k
    × Passed skipped name b lo k

module _ (skipped : ℕ → Bool) (name : CString) (b : Buffer) where
  nothing-Passed : (i : ℕ) → Passed skipped name b i i
  nothing-Passed i k above below = absurd (omega arith)

  one_more :
      (i hi : ℕ)
      → b (i * 32) ≢ entry_end
      → ¬ Matches skipped name b i
      → Passed skipped name b (i + 1) hi
      → Passed skipped name b i hi
  one_more i hi open_entry other rest k above below = elim (Bool-cases (k == i)) [
    | inl here ↦ let same : k ≡ i = (==_iff k i).0 here in rw same (open_entry, other)
    | inr there ↦ rest k (ground arith) below
  ]

  further :
      (i n : ℕ) (r : Scan)
      → b (i * 32) ≢ entry_end
      → ¬ Matches skipped name b i
      → Searched skipped name b (i + 1) (i + 1 + n) r
      → Searched skipped name b i (i + suc n) r
  further i n missing open_entry other rest =
      one_more i (i + suc n) open_entry other (λ k above below. rest k above (omega arith))
  further i n ended open_entry other (k, above, below, end, passed) =
      (k, omega arith, omega arith, end, one_more i k open_entry other passed)
  further i n (at k) open_entry other (above, below, live, matches, passed) =
      (omega arith, omega arith, live, matches, one_more i k open_entry other passed)

  -- The search for a name in a cluster stops at the first entry that is in use, is not skipped and
  -- has the name, if no end mark stands before it; at the end mark, if that comes first; and else it
  -- goes through all entries without a match.
  pub scan_name-Searched :
      (n i : ℕ) → Searched skipped name b i (i + n) (scan_name skipped name n i b)
  unfolding scan_name
  scan_name-Searched zero i = λ k above below. absurd (omega arith)
  scan_name-Searched (suc n) i = elim (Bool-cases (b (i * 32) == entry_end)) [
    | inl end ↦
        rw (end, scan_name) (i, omega arith, omega arith, (==_iff _ _).0 end, nothing-Passed i)
    | inr live ↦
        let open_entry : b (i * 32) ≢ entry_end = λ e. cc ((==_iff (b (i * 32)) entry_end).1 e) in
        elim (Bool-cases ((b (i * 32) == entry_free) || skipped (attributes b (i * 32)))) [
          | inl unused ↦
              rw (live, unused, scan_name)
                (further i n _ open_entry (λ m. cc (m.0)) (scan_name-Searched n (i + 1)))
          | inr used ↦
              elim (Bool-cases (is_zero (strcmp name (map to_upper (entry_name b (i * 32)))))) [
                | inl named ↦
                    rw (live, used, named, scan_name)
                      (omega arith, omega arith, open_entry, (used, named), nothing-Passed i)
                | inr unnamed ↦
                    rw (live, used, unnamed, scan_name)
                      (further i n _ open_entry (λ m. cc (m.1)) (scan_name-Searched n (i + 1)))
              ]
        ]
  ]
