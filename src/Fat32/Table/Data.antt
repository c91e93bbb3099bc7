-- ===== src/Fat32/Table/Data.antt =====
-- Reads of the table leave every sector behind its copies as it was.
use native.Mathlib.Nat.{mul-le-mul_right}
use hazle_os.Prelude.{
  ℕ, suc, ◌+◌, ◌*◌, ◌≤◌, ◌≡◌, refl, inl, inr, true, not, ◌&&◌, arith, ◌==◌, ==_iff, Buffer,
  Bool-cases, Option-cases, ◌∙◌, ap, u32,
}
use hazle_os.Device.{BlockDevice}
use hazle_os.Fat32.{Fs, Volume, no_sector}
use hazle_os.Fat32.Table.{flush_cache, read_fat_sector, load_sector, get_fat_entry, fat_sector}
use hazle_os.Fat32.Table.Coherent.{IsGeometry, IsCoherent}
use hazle_os.Fat32.Table.Flush.{and_then-keeps, flush_copies-other}

module _ {B : BlockDevice} (fs : Fs) (g : IsGeometry fs) (v : Volume B) (c : IsCoherent fs v)
    (m : ℕ) (past : fs.first_fat_sector + fs.num_fats * fs.sectors_per_fat ≤ m) where
  flush_cache-data : BlockDevice.sector B (flush_cache fs v).1.dev m ≡ BlockDevice.sector B v.dev m
  unfolding flush_cache
  flush_cache-data =
      elim (Bool-cases (v.fat_cache_dirty && not (v.cached_fat_sector == no_sector))) [
        | inr idle ↦ rw idle refl
        | inl runs ↦ rw runs (elim c.cached [
          | inr none_cached ↦ absurd (none_runs none_cached runs)
          | inl cached ↦
              flush_copies-other B fs v.cached_fat_sector v.fat_sector_buffer g cached fs.num_fats 0
                m v.dev (omega arith)
                (λ j lo hi e. absurd (
                  omega (
                    arith,
                    mul-le-mul_right {m = suc j} {n = fs.num_fats} fs.sectors_per_fat (omega arith),
                  )))
        ])
      ]
    where
      none_runs :
          v.cached_fat_sector ≡ no_sector
          → ¬ (v.fat_cache_dirty && not (v.cached_fat_sector == no_sector)) ≡ true
      none_runs e runs = ground (arith, (==_iff v.cached_fat_sector no_sector).1 e)

  read_fat_sector-data :
      (s : ℕ) (w : Volume B)
      → BlockDevice.sector B (read_fat_sector fs s w).1.dev ≡ BlockDevice.sector B w.dev
  unfolding read_fat_sector
  read_fat_sector-data s w =
      elim (Option-cases (BlockDevice.block_read B (u32 (fs.first_fat_sector + s)) w.dev).0) [
        | inl failed ↦
            rw (failed, read_fat_sector)
              (BlockDevice.read_same B (u32 (fs.first_fat_sector + s)) w.dev)
        | inr (b, got) ↦
            rw (got, read_fat_sector)
              (BlockDevice.read_same B (u32 (fs.first_fat_sector + s)) w.dev)
      ]

  pub get_fat_entry-data :
      (cluster : ℕ)
      → BlockDevice.sector B (get_fat_entry fs cluster v).1.dev m ≡ BlockDevice.sector B v.dev m
  unfolding get_fat_entry load_sector
  get_fat_entry-data cluster = elim (Bool-cases (v.cached_fat_sector == fat_sector fs cluster)) [
    | inl hit ↦ rw hit refl
    | inr miss ↦ rw miss (
        and_then-keeps
          (λ (w : Volume B). BlockDevice.sector B w.dev m ≡ BlockDevice.sector B v.dev m)
          (flush_cache fs v) (read_fat_sector fs (fat_sector fs cluster)) flush_cache-data
          (λ w same.
            ap (λ (s : ℕ → Buffer). s m) (read_fat_sector-data (fat_sector fs cluster) w) ∙ same))
  ]
