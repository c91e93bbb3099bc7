-- ===== src/Fat32/Bpb/Layout.antt =====
-- Where the regions of the volume lie: what `fat32_parse_bpb` accepts, and the numbering of clusters.
use native.Mathlib.Nat.{mul-le-mul_right, div-mul-le_self}
use hazle_os.Prelude.{
  ℕ, ◌+◌, ◌-◌, ◌*◌, ◌/◌, ◌^◌, ◌≤◌, ◌<◌, ◌≡◌, refl, Bool, arith, Buffer, sub32, ◌∙◌, ap, sym,
}
use hazle_os.Fat32.{Fs}
use hazle_os.Fat32.Bpb.{
  parsed, parse_sector, fs_of_sector, total_sectors, first_data_sector, root_path, cluster_to_lba,
  lba_to_cluster,
}
use hazle_os.Fat32.Bpb.Fields
use hazle_os.Fat32.Table.Coherent.{IsGeometry}
use hazle_os.Fat32.Table.Alloc.{IsSized}

-- Reserved sectors, the copies of the table, and the data clusters follow one another, and end
-- within the volume.
pub record IsLaidOut (fs : Fs) : Type 0 where
  pub cluster_size : 0 < fs.sectors_per_cluster
  pub data_after_fats :
      fs.first_data_sector ≡ fs.first_fat_sector + fs.num_fats * fs.sectors_per_fat
  pub data_fits :
      fs.first_data_sector + fs.total_clusters * fs.sectors_per_cluster ≤ fs.total_sectors
  pub total_fits : fs.total_sectors < 2 ^ 32
  pub clusters_fit : fs.total_clusters + 2 < 2 ^ 32
  pub cluster_small : fs.sectors_per_cluster < 256
  pub buffer_size : fs.bytes_per_cluster ≡ fs.sectors_per_cluster * 512

div_of : (q i s : ℕ) → i < s → (q * s + i) / s ≡ q
div_of q i s h = grind arith

-- A cluster of the data region.
abbrev pub IsData : Fs → ℕ → Type 0
IsData fs c = (2 ≤ c) × (c < fs.total_clusters + 2)

module _ (fs : Fs) (l : IsLaidOut fs) where
  -- The sectors of a data cluster lie in the data region, and nothing wraps.
  extent :
      (c : ℕ)
      → IsData fs c
      → (c - 2) * fs.sectors_per_cluster + fs.sectors_per_cluster
        ≤ fs.total_clusters * fs.sectors_per_cluster
  extent c h = omega (
    arith,
    mul-le-mul_right {m = c - 2 + 1} {n = fs.total_clusters} fs.sectors_per_cluster (omega arith),
  )

  pub cluster_to_lba-linear :
      (c : ℕ)
      → IsData fs c
      → cluster_to_lba fs c ≡ fs.first_data_sector + (c - 2) * fs.sectors_per_cluster
  unfolding cluster_to_lba
  cluster_to_lba-linear c h =
      let two : sub32 c 2 ≡ c - 2 = omega (arith, l.clusters_fit) in
      rw two (omega (arith, extent c h, l.data_fits, l.total_fits))

  -- `fat32_lba_to_cluster` finds the data cluster of each of its sectors.
  pub lba_to_cluster-cluster_to_lba :
      (c i : ℕ)
      → IsData fs c
      → i < fs.sectors_per_cluster
      → lba_to_cluster fs (cluster_to_lba fs c + i) ≡ c
  unfolding lba_to_cluster
  lba_to_cluster-cluster_to_lba c i h hi =
      let quotient : sub32 (cluster_to_lba fs c + i) fs.first_data_sector
          ≡ (c - 2) * fs.sectors_per_cluster + i =
        omega (arith, cluster_to_lba-linear c h, extent c h, l.data_fits, l.total_fits) in
      rw quotient (omega (arith, div_of (c - 2) i fs.sectors_per_cluster hi, l.clusters_fit))

  -- If a sector of a data cluster is a sector of a data cluster, they are the same cluster and
  -- the same place in it: two data clusters share no sector.
  pub clusters_apart :
      (c d i j : ℕ)
      → IsData fs c
      → IsData fs d
      → i < fs.sectors_per_cluster
      → j < fs.sectors_per_cluster
      → cluster_to_lba fs c + i ≡ cluster_to_lba fs d + j
      → (c ≡ d) × (i ≡ j)
  clusters_apart c d i j hc hd hi hj e =
      let same : c ≡ d =
        sym (lba_to_cluster-cluster_to_lba c i hc hi)
        ∙ ap (lba_to_cluster fs) e
        ∙ lba_to_cluster-cluster_to_lba d j hd hj in
      (same, omega (arith, e, ap (cluster_to_lba fs) same))

  pub cluster_range :
      (c i : ℕ)
      → IsData fs c
      → i < fs.sectors_per_cluster
      → (fs.first_fat_sector + fs.num_fats * fs.sectors_per_fat ≤ cluster_to_lba fs c + i)
        × (cluster_to_lba fs c + i < fs.total_sectors)
  cluster_range c i h hi =
      omega (arith, cluster_to_lba-linear c h, extent c h, l.data_after_fats, l.data_fits)

  pub cluster_fits : (c : ℕ) → IsData fs c → cluster_to_lba fs c + fs.sectors_per_cluster < 2 ^ 32
  cluster_fits c h = omega (
    arith,
    l.cluster_size,
    l.total_fits,
    cluster_range c (fs.sectors_per_cluster - 1) h (omega (arith, l.cluster_size)),
  )

-- The boot sector of a volume as the specification wants it: 512-byte sectors, at least one copy of
-- the table, and a volume that holds its regions and a table for all its clusters.
pub record IsBoot (b : Buffer) : Type 0 where
  pub sector_size : Fields.bytes_per_sector b ≡ 512
  pub no_fat16 : Fields.sectors_per_fat_16 b ≡ 0
  pub cluster_size : 0 < Fields.sectors_per_cluster b
  pub cluster_small : Fields.sectors_per_cluster b < 256
  pub copies : 0 < Fields.num_fats b
  pub table_size : Fields.sectors_per_fat_32 b ≤ 2 ^ 23
  pub total_fits : Fields.total_sectors_32 b < 2 ^ 32
  pub regions :
      Fields.reserved_sectors b + Fields.num_fats b * Fields.sectors_per_fat_32 b
      ≤ Fields.total_sectors_32 b
  pub table_covers :
      (Fields.total_sectors_32 b
            - (Fields.reserved_sectors b + Fields.num_fats b * Fields.sectors_per_fat_32 b))
          / Fields.sectors_per_cluster b
        + 2
      ≤ Fields.sectors_per_fat_32 b * 128
  pub large : 0 < Fields.total_sectors_32 b

-- `fat32_parse_bpb` accepts a boot sector with 512-byte sectors, 1 to 255 sectors per cluster, no
-- FAT16 table, at least one copy of a table of at most 2^23 sectors, and a 32-bit number of
-- sectors that holds the regions, where the table has an entry for every cluster. The geometry
-- that it stores is the one that the table and the cluster transfers rely on, and the current
-- directory is the root.
pub parse_sector-IsLaidOut :
    (mounted : Bool) (b : Buffer)
    → IsBoot b
    → (fs : Fs) × (parse_sector mounted b ≡ parsed fs)
      × IsGeometry fs
      × IsSized fs
      × IsLaidOut fs
      × (fs.current_directory ≡ Fields.root_cluster b)
      × (fs.current_path ≡ root_path)
parse_sector-IsLaidOut mounted b h = (
  fs_of_sector mounted b,
  accepted,
  record {
    sector_size = unfold fs_of_sector in h.sector_size;
    copies = unfold fs_of_sector in h.copies;
    fits = unfold fs_of_sector in omega (arith, h);
    table_size = unfold fs_of_sector in h.table_size;
  },
  unfold fs_of_sector in rw clusters (omega (arith, h)),
  record {
    cluster_size = unfold fs_of_sector in h.cluster_size;
    data_after_fats = unfold fs_of_sector in first;
    data_fits =
        unfold fs_of_sector in
        rw (clusters, first, total)
          (omega (
            arith,
            h,
            div-mul-le_self
                (Fields.total_sectors_32 b
                  - (Fields.reserved_sectors b + Fields.num_fats b * Fields.sectors_per_fat_32 b))
                (Fields.sectors_per_cluster b),
          ));
    total_fits = unfold fs_of_sector in rw total h.total_fits;
    clusters_fit = unfold fs_of_sector in rw clusters (omega (arith, h));
    cluster_small = unfold fs_of_sector in h.cluster_small;
    buffer_size = unfold fs_of_sector in rw h.sector_size (omega (arith, h.cluster_small));
  },
  unfold fs_of_sector in refl,
  unfold fs_of_sector in refl,
)
  where
    first :
        first_data_sector b
        ≡ Fields.reserved_sectors b + Fields.num_fats b * Fields.sectors_per_fat_32 b
    first = unfold first_data_sector in omega (arith, h)

    total : total_sectors b ≡ Fields.total_sectors_32 b
    total = unfold total_sectors in ground (arith, h.large)

    clusters :
        sub32 (total_sectors b) (first_data_sector b) / Fields.sectors_per_cluster b
        ≡ (Fields.total_sectors_32 b
            - (Fields.reserved_sectors b + Fields.num_fats b * Fields.sectors_per_fat_32 b))
          / Fields.sectors_per_cluster b
    clusters = rw (first, total) (ap (λ n. n / Fields.sectors_per_cluster b) (omega (arith, h)))

    accepted : parse_sector mounted b ≡ parsed (fs_of_sector mounted b)
    accepted = unfold parse_sector in ground (arith, h)
