-- ===== src/Fat32/File/Stream.antt =====
-- The bytes that a chain of clusters holds, and what a read leaves of the volume.
use hazle_os.Prelude.{
  ℕ, ◌+◌, ◌-◌, ◌*◌, ◌/◌, ◌%◌, ◌≤◌, ◌<◌, ◌≡◌, refl, inl, inr, true, List, [], ◌∷◌, arith, ltb,
  if◌then◌else◌, ==_refl, Bool-cases, ◌∙◌, ap, Buffer,
}
use hazle_os.Device.{BlockDevice}
use hazle_os.Fat32.{Fs, Volume}
use hazle_os.Fat32.Table.Coherent.{IsGeometry, IsSameTable}
use hazle_os.Fat32.Table.Links.{contains}
use hazle_os.Fat32.Table.Load.{trans}
use hazle_os.Fat32.Bpb.{cluster_to_lba}
use hazle_os.Fat32.Bpb.Layout.{IsLaidOut, IsData, cluster_range}

abbrev pub AreData : Fs → List ℕ → Type 0
AreData fs clusters = (k : ℕ) → contains k clusters ≡ true → IsData fs k

module _ {B : BlockDevice} where
  -- Byte `j` of a cluster.
  abbrev pub cluster_byte : Fs → Volume B → (cluster j : ℕ) → ℕ
  cluster_byte fs v cluster j =
      BlockDevice.sector B v.dev (cluster_to_lba fs cluster + j / 512) (j % 512)

  -- Byte `q` of the clusters, one after the other.
  abbrev pub stream : Fs → Volume B → List ℕ → ℕ → ℕ
  stream fs v [] q = 0
  stream fs v (c ∷ clusters) q =
      if ltb q fs.bytes_per_cluster
      then cluster_byte fs v c q
      else stream fs v clusters (q - fs.bytes_per_cluster)

  -- The same entries, and the same data sectors.
  pub record IsUntouched (fs : Fs) (v w : Volume B) : Type 0 where
    pub same_table : IsSameTable fs v w
    pub same_data :
        (m : ℕ)
        → fs.first_fat_sector + fs.num_fats * fs.sectors_per_fat ≤ m
        → BlockDevice.sector B w.dev m ≡ BlockDevice.sector B v.dev m

-- The cluster that holds byte `q`.
abbrev pub cluster_at : Fs → List ℕ → ℕ → ℕ
cluster_at fs [] q = 0
cluster_at fs (c ∷ clusters) q =
    if ltb q fs.bytes_per_cluster then c else cluster_at fs clusters (q - fs.bytes_per_cluster)

module _ {B : BlockDevice} (fs : Fs) (g : IsGeometry fs) (l : IsLaidOut fs) where
  pub IsUntouched-trans :
      {v w x : Volume B} → IsUntouched fs v w → IsUntouched fs w x → IsUntouched fs v x
  IsUntouched-trans p q = record {
    same_table = trans fs g p.same_table q.same_table;
    same_data = λ m past. q.same_data m past ∙ p.same_data m past;
  }

  pub cluster_byte-same :
      {v w : Volume B} (c j : ℕ)
      → IsUntouched fs v w
      → IsData fs c
      → j < fs.bytes_per_cluster
      → cluster_byte fs w c j ≡ cluster_byte fs v c j
  cluster_byte-same {v} c j same is_data inside =
      ap (λ (s : Buffer). s (j % 512))
        (same.same_data (cluster_to_lba fs c + j / 512)
          (cluster_range fs l c (j / 512) is_data (omega (arith, l.buffer_size))).0)

  pub stream-same :
      {v w : Volume B} (clusters : List ℕ) (q : ℕ)
      → IsUntouched fs v w
      → AreData fs clusters
      → stream fs w clusters q ≡ stream fs v clusters q
  stream-same [] q same are_data = refl
  stream-same (c ∷ clusters) q same are_data = elim (Bool-cases (ltb q fs.bytes_per_cluster)) [
    | inl here ↦
        rw here (cluster_byte-same c q same (are_data c (rw (==_refl c) refl)) (ground arith))
    | inr there ↦ rw there (
        stream-same clusters (q - fs.bytes_per_cluster) same
          (λ k h. are_data k (tail_contains k h)))
  ]
    where
      tail_contains : (k : ℕ) → contains k clusters ≡ true → contains k (c ∷ clusters) ≡ true
      tail_contains k h = ground arith
