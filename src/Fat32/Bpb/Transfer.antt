-- ===== src/Fat32/Bpb/Transfer.antt =====
-- `fat32_read_cluster` and `fat32_write_cluster`: which bytes they move, and what they spare.
use native.Mathlib.Nat.{mul-le-mul_right}
use hazle_os.Prelude.{
  ℕ, ◌+◌, ◌*◌, ◌/◌, ◌%◌, ◌≤◌, ◌<◌, ◌≡◌, ◌≢◌, true, arith, Buffer, ◌⊎◌, inl, inr, ◌∙◌, ap, sym, none,
  some, Bool-cases, IsBytes, ltb, if◌then◌else◌, ◌==◌, lt→ltb,
}
use hazle_os.Device.{BlockDevice, IsReliable}
use hazle_os.Fat32.{Fs, Volume}
use hazle_os.Fat32.Table.Coherent.{IsGeometry, IsCoherent, IsSameTable}
use hazle_os.Fat32.Table.Load.{reread}
use hazle_os.Fat32.Bpb.{cut_sector, read_cluster, write_cluster, cluster_to_lba}
use hazle_os.Fat32.Bpb.Layout.{IsLaidOut, IsData, cluster_fits, cluster_range}
use hazle_os.Fat32.Bpb.Sectors.{
  read_sectors-same, read_sectors-value, write_sectors-other, write_sectors-value,
  write_sectors-IsBytes, write_sectors-reliable, read_sectors-reliable,
}

module _ {B : BlockDevice} (fs : Fs) (g : IsGeometry fs) (l : IsLaidOut fs) where
  -- A read of a data cluster changes no sector. If it succeeds, byte `j` of the buffer is byte
  -- `j % 512` of the cluster's sector `j / 512`, and what lies past the cluster is untouched.
  pub read_cluster-value :
      (c : ℕ) (buffer : Buffer) (v : Volume B)
      → IsData fs c
      → (BlockDevice.sector B (read_cluster fs c buffer v).1.dev ≡ BlockDevice.sector B v.dev)
        × ((out : Buffer)
            → (read_cluster fs c buffer v).0 ≡ some out
            → (j : ℕ)
            → out j ≡ (
                if ltb j (fs.sectors_per_cluster * 512)
                then BlockDevice.sector B v.dev (cluster_to_lba fs c + j / 512) (j % 512)
                else buffer j))
  unfolding read_cluster
  read_cluster-value c buffer v h = (
    read_sectors-same B fs g.sector_size (cluster_to_lba fs c) fs.sectors_per_cluster 0 buffer
        v.dev,
    λ out done j. ground (
      arith,
      read_sectors-value B fs g.sector_size (cluster_to_lba fs c) fs.sectors_per_cluster 0 buffer
          out v.dev (omega (arith, cluster_fits fs l c h)) done j,
    ),
  )

  pub read_cluster-IsSameTable :
      (c : ℕ) (buffer : Buffer) (v : Volume B)
      → IsData fs c
      → IsCoherent fs v
      → IsSameTable fs v (read_cluster fs c buffer v).1
  read_cluster-IsSameTable c buffer v h coherent =
      let same = (read_cluster-value c buffer v h).0 in
      unfold read_cluster in reread fs g v _ coherent same

  module _ (c : ℕ) (buffer : Buffer) (v : Volume B) (h : IsData fs c) where
    abbrev written : Volume B
    written = (write_cluster fs c buffer v).1

    -- A write of a data cluster spares every sector outside the cluster, also when it fails.
    pub write_cluster-other :
        (m : ℕ)
        → (m < cluster_to_lba fs c) ⊎ (cluster_to_lba fs c + fs.sectors_per_cluster ≤ m)
        → BlockDevice.sector B written.dev m ≡ BlockDevice.sector B v.dev m
    unfolding write_cluster
    write_cluster-other m out =
        write_sectors-other B fs g.sector_size (cluster_to_lba fs c) fs.sectors_per_cluster 0 m
          buffer v.dev (omega (arith, cluster_fits fs l c h)) (omega arith)

    table_spared :
        (t : ℕ)
        → t < fs.sectors_per_fat
        → BlockDevice.sector B written.dev (fs.first_fat_sector + t)
          ≡ BlockDevice.sector B v.dev (fs.first_fat_sector + t)
    table_spared t ht = write_cluster-other (fs.first_fat_sector + t) (
        inl (
          omega (
            arith,
            cluster_range fs l c 0 h l.cluster_size,
            mul-le-mul_right {m = 1} {n = fs.num_fats} fs.sectors_per_fat g.copies,
          )))

    -- A write of a data cluster from a buffer of bytes changes no entry of the allocation
    -- table and keeps its cache coherent, also when it fails.
    pub write_cluster-IsSameTable : IsBytes buffer → IsCoherent fs v → IsSameTable fs v written
    unfolding write_cluster
    write_cluster-IsSameTable hb coherent = record {
      coherent = record {
        cached = coherent.cached;
        clean = λ clean hc j.
            coherent.clean clean hc j
            ∙ ap (λ (s : Buffer). s j) (sym (table_spared v.cached_fat_sector hc));
        buffer_bytes = coherent.buffer_bytes;
        medium_bytes =
            write_sectors-IsBytes B fs g.sector_size (cluster_to_lba fs c) fs.sectors_per_cluster 0
              buffer v.dev hb coherent.medium_bytes;
      };
      same = λ t ht j. elim (Bool-cases (v.cached_fat_sector == t)) [
        | inl hit ↦ rw hit
        | inr miss ↦ rw miss (ap (λ (s : Buffer). s j) (table_spared t ht))
      ];
    }

    written_sector :
        (k : ℕ)
        → (write_cluster fs c buffer v).0 ≡ true
        → k < fs.sectors_per_cluster
        → BlockDevice.sector B written.dev (cluster_to_lba fs c + k) ≡ cut_sector buffer (k * 512)
    unfolding write_cluster
    written_sector k done hk =
        write_sectors-value B fs g.sector_size (cluster_to_lba fs c) fs.sectors_per_cluster 0 k
          buffer v.dev (omega (arith, cluster_fits fs l c h)) done (omega arith) (omega arith)

    -- A successful read of a data cluster that follows a successful write of it gives every
    -- byte of the buffer back.
    pub read_cluster-write_cluster :
        (old out : Buffer)
        → (write_cluster fs c buffer v).0 ≡ true
        → (read_cluster fs c old written).0 ≡ some out
        → (j : ℕ) → j < fs.sectors_per_cluster * 512
        → out j ≡ buffer j
    read_cluster-write_cluster old out done read j hj =
        (read_cluster-value c old written h).1 out read j
        ∙ rw
            (
              lt→ltb j (fs.sectors_per_cluster * 512) hj,
              written_sector (j / 512) done (omega arith),
            )
            (ap buffer (omega arith))

  -- On a reliable device both always succeed.
  pub write_cluster-reliable :
      (r : IsReliable B) (c : ℕ) (buffer : Buffer) (v : Volume B)
      → (write_cluster fs c buffer v).0 ≡ true
  unfolding write_cluster
  write_cluster-reliable r c buffer v =
      write_sectors-reliable B fs g.sector_size r (cluster_to_lba fs c) fs.sectors_per_cluster 0
        buffer v.dev

  pub read_cluster-reliable :
      (r : IsReliable B) (c : ℕ) (buffer : Buffer) (v : Volume B)
      → (read_cluster fs c buffer v).0 ≢ none
  unfolding read_cluster
  read_cluster-reliable r c buffer v =
      read_sectors-reliable B fs g.sector_size r (cluster_to_lba fs c) fs.sectors_per_cluster 0
        buffer v.dev
