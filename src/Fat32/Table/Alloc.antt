-- ===== src/Fat32/Table/Alloc.antt =====
-- Allocation: `fat32_find_free_cluster`, `fat32_allocate_cluster`, `fat32_count_free_clusters`.
use hazle_os.Prelude.{
  ℕ, zero, suc, ◌+◌, ◌*◌, ◌^◌, ◌≤◌, ◌<◌, ◌≡◌, ◌≢◌, refl, ◌⊎◌, inl, inr, arith, ◌==◌, if◌then◌else◌,
  u32, Bool-cases, ap₂, ==_iff, ne→==,
}
use hazle_os.Device.{BlockDevice, IsReliable}
use hazle_os.Fat32.{Fs, Volume, eoc, free_cluster}
use hazle_os.Fat32.Table.{
  get_fat_entry, find_free_from, find_free_cluster, allocate_cluster, count_free_from,
  count_free_clusters,
}
use hazle_os.Fat32.Table.Coherent.{IsGeometry, InTable, entry, IsCoherent, IsSameTable}
use hazle_os.Fat32.Table.Flush.{unchanged}
use hazle_os.Fat32.Table.Entry.{
  same_entry, get_fat_entry-entry, get_fat_entry-reliable, set_fat_entry-reliable,
  set_fat_entry-IsStored,
}
use hazle_os.Fat32.Table.Load.{trans}

-- The table is large enough for every data cluster, as `fat32_parse_bpb` counts them.
abbrev pub IsSized : Fs → Type 0
IsSized fs = (fs.total_clusters + 2) * 4 ≤ fs.sectors_per_fat * 512

-- How many of the `n` clusters from `lo` have a free entry.
abbrev pub free_count : (ℕ → ℕ) → ℕ → ℕ → ℕ
free_count f lo zero = 0
free_count f lo (suc n) = (if f lo == free_cluster then 1 else 0) + free_count f (lo + 1) n

pub free_count-le : (f : ℕ → ℕ) (lo n : ℕ) → free_count f lo n ≤ n
free_count-le f lo zero = omega arith
free_count-le f lo (suc n) = ground (arith, free_count-le f (lo + 1) n)

pub free_count_ext :
    (f h : ℕ → ℕ) (lo n : ℕ)
    → ((k : ℕ) → lo ≤ k → k < lo + n → f k ≡ h k)
    → free_count f lo n ≡ free_count h lo n
free_count_ext f h lo zero e = refl
free_count_ext f h lo (suc n) e =
    ap₂ (λ x y. (if x == free_cluster then 1 else 0) + y) (e lo (omega arith) (omega arith))
      (free_count_ext f h (lo + 1) n (λ k above below. e k (omega arith) (omega arith)))

module _ {B : BlockDevice} where
  -- What a scan of the clusters from `lo` to `hi` finds.
  pub record IsFirstFree (fs : Fs) (v : Volume B) (lo hi found : ℕ) : Type 0 where
    pub above : lo ≤ found
    pub below : found < hi
    pub is_free : entry fs v found ≡ free_cluster
    pub used_before : (k : ℕ) → lo ≤ k → k < found → entry fs v k ≢ free_cluster

  abbrev pub NoneFree : Fs → Volume B → ℕ → ℕ → Type 0
  NoneFree fs v lo hi = (k : ℕ) → lo ≤ k → k < hi → entry fs v k ≢ free_cluster

  abbrev pub Scanned : Fs → Volume B → ℕ → ℕ → ℕ → Type 0
  Scanned fs v lo hi found = ((found ≡ 0) × NoneFree fs v lo hi) ⊎ IsFirstFree fs v lo hi found

module _ {B : BlockDevice} (fs : Fs) (g : IsGeometry fs) where
  module _ {v w : Volume B} (lo hi : ℕ) (s : IsSameTable fs v w)
      (h : (k : ℕ) → lo ≤ k → k < hi → InTable fs k) (used : entry fs v lo ≢ free_cluster) where
    used_from : (end : ℕ) → end ≤ hi → NoneFree fs w (lo + 1) end → NoneFree fs v lo end
    used_from end le rest k above below = elim (Bool-cases (k == lo)) [
      | inl same ↦ rw ((==_iff k lo).0 same) used
      | inr other ↦
          rw (same_entry fs g k s (h k above (omega arith))) at (rest k (ground arith) below)
    ]

    scan_step : (found : ℕ) → Scanned fs w (lo + 1) hi found → Scanned fs v lo hi found
    scan_step found (inl (e, rest)) = inl (e, used_from hi (omega arith) rest)
    scan_step found (inr first) = inr (record {
      above = omega (arith, first.above);
      below = first.below;
      is_free =
          rw (same_entry fs g found s (h found (omega (arith, first.above)) first.below)) at
            first.is_free;
      used_before = used_from found (omega (arith, first.below)) first.used_before;
    })

module _ {B : BlockDevice} (fs : Fs) (g : IsGeometry fs) (r : IsReliable B) where
  find_free_from-Scanned :
      (n lo hi : ℕ) (v : Volume B)
      → lo + n ≡ hi
      → ((k : ℕ) → lo ≤ k → k < hi → InTable fs k)
      → IsCoherent fs v
      → IsSameTable fs v (find_free_from fs n lo v).1
        × Scanned fs v lo hi (find_free_from fs n lo v).0
  unfolding find_free_from
  find_free_from-Scanned zero lo hi v e h c =
      (unchanged fs g v c, inl (refl, λ k above below. absurd (omega arith)))
  find_free_from-Scanned (suc n) lo hi v e h c =
      rw value (elim (Bool-cases (entry fs v lo == free_cluster)) [
        | inl hit ↦ rw hit (
          s,
          inr (record {
            above = omega arith;
            below = omega arith;
            is_free = (==_iff _ _).0 hit;
            used_before = λ k above below. absurd (omega arith);
          }),
        )
        | inr miss ↦ rw miss (
            let (s', found) =
              find_free_from-Scanned n (lo + 1) hi _ (omega arith)
                (λ k above below. h k (omega arith) below) s.coherent in
            (trans fs g s s', scan_step fs g lo hi s h (ground arith) _ found))
      ])
    where
      in_table : InTable fs lo
      in_table = h lo (omega arith) (omega arith)

      value : (get_fat_entry fs lo v).0 ≡ entry fs v lo
      value = get_fat_entry-reliable fs g r lo v in_table c

      s : IsSameTable fs v (get_fat_entry fs lo v).1
      s = (get_fat_entry-entry fs g lo v in_table c).0

  cluster-InTable : IsSized fs → (k : ℕ) → 2 ≤ k → k < fs.total_clusters + 2 → InTable fs k
  cluster-InTable sized k above below = omega arith

  -- With a table for all clusters and a reliable device, `fat32_find_free_cluster` changes no
  -- entry, and returns the first free data cluster, or 0 if there is none.
  pub find_free_cluster-Scanned :
      (v : Volume B)
      → IsSized fs
      → IsCoherent fs v
      → IsSameTable fs v (find_free_cluster fs v).1
        × Scanned fs v 2 (fs.total_clusters + 2) (find_free_cluster fs v).0
  unfolding find_free_cluster
  find_free_cluster-Scanned v sized c =
      find_free_from-Scanned fs.total_clusters 2 (fs.total_clusters + 2) v (omega arith)
        (cluster-InTable sized) c

  -- What `fat32_allocate_cluster` does: nothing on a full volume, and else it marks the first free
  -- cluster as the end of a chain.
  abbrev pub Allocated : Volume B → ℕ × Volume B → Type 0
  Allocated v out =
      ((out.0 ≡ 0) × NoneFree fs v 2 (fs.total_clusters + 2) × IsSameTable fs v out.1)
      ⊎ (IsFirstFree fs v 2 (fs.total_clusters + 2) out.0
          × IsCoherent fs out.1
          × ((k : ℕ)
              → InTable fs k
              → entry fs out.1 k ≡ (if k == out.0 then eoc else entry fs v k)))

  -- On a reliable device `fat32_allocate_cluster` returns 0 exactly on a full volume and changes no
  -- entry there; else it returns the first free cluster, marks it as the end of a chain, and leaves
  -- every other entry.
  pub allocate_cluster-Allocated :
      (v : Volume B) → IsSized fs → IsCoherent fs v → Allocated v (allocate_cluster fs v)
  unfolding allocate_cluster
  allocate_cluster-Allocated v sized c = elim scanned [
    | inl (e, full) ↦ inl (rw (zero_case e), full, rw (zero_case e) s)
    | inr first ↦
        let k = (find_free_cluster fs v).0 in
        let in_table = cluster-InTable sized k first.above first.below in
        let new = set_fat_entry-IsStored fs g r k _ in_table s.coherent eoc in
        let stored = set_fat_entry-reliable fs g r k _ in_table s.coherent eoc in
        rw (ne→== k 0 (λ e. absurd (omega (arith, first.above))), stored)
          (inr
            (first, new.coherent, λ j hj. ground (arith, new.stored j hj, same_entry fs g j s hj)))
  ]
    where
      s : IsSameTable fs v (find_free_cluster fs v).1
      s = (find_free_cluster-Scanned v sized c).0

      scanned : Scanned fs v 2 (fs.total_clusters + 2) (find_free_cluster fs v).0
      scanned = (find_free_cluster-Scanned v sized c).1

      zero_case :
          (find_free_cluster fs v).0 ≡ 0 → allocate_cluster fs v ≡ (0, (find_free_cluster fs v).1)
      zero_case e = rw e

  count_free_from-count :
      (n lo count : ℕ) (v : Volume B)
      → ((k : ℕ) → lo ≤ k → k < lo + n → InTable fs k)
      → IsCoherent fs v
      → count + n < 2 ^ 32
      → IsSameTable fs v (count_free_from fs n lo count v).1
        × ((count_free_from fs n lo count v).0 ≡ count + free_count (entry fs v) lo n)
  unfolding count_free_from
  count_free_from-count zero lo count v h c small = (unchanged fs g v c, omega arith)
  count_free_from-count (suc n) lo count v h c small =
      let (s', e) =
        count_free_from-count n (lo + 1)
          (if (get_fat_entry fs lo v).0 == free_cluster then u32 (count + 1) else count)
          (get_fat_entry fs lo v).1 (λ k above below. h k (omega arith) (omega arith)) s.coherent
          (ground arith) in
      (
        trans fs g s s',
        ground (
          arith,
          e,
          get_fat_entry-reliable fs g r lo v in_table c,
          free_count_ext (entry fs (get_fat_entry fs lo v).1) (entry fs v) (lo + 1) n
              (λ k above below. same_entry fs g k s (h k (omega arith) (omega arith))),
        ),
      )
    where
      in_table : InTable fs lo
      in_table = h lo (omega arith) (omega arith)

      s : IsSameTable fs v (get_fat_entry fs lo v).1
      s = (get_fat_entry-entry fs g lo v in_table c).0

  -- On a reliable device `fat32_count_free_clusters` changes no entry, and counts the data clusters
  -- whose entry is free.
  pub count_free_clusters-count :
      (v : Volume B)
      → IsSized fs
      → IsCoherent fs v
      → IsSameTable fs v (count_free_clusters fs v).1
        × ((count_free_clusters fs v).0 ≡ free_count (entry fs v) 2 fs.total_clusters)
  unfolding count_free_clusters
  count_free_clusters-count v sized c =
      let (s, e) =
        count_free_from-count fs.total_clusters 2 0 v
          (λ k above below. cluster-InTable sized k above (omega arith)) c
          (omega (arith, g.table_size)) in
      (s, omega (arith, e))
