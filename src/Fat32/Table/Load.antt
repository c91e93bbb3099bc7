-- ===== src/Fat32/Table/Load.antt =====
-- `fat_load_sector`: what the cache holds after it, and that the table stays the same.
use native.Mathlib.Nat.{mul-le-mul_right}
use hazle_os.Prelude.{
  ℕ, ◌+◌, ◌<◌, ◌≡◌, ◌⊎◌, inl, inr, true, false, arith, ◌==◌, ==_iff, Buffer, u32, Bool-cases,
  Option-cases, ◌∙◌, ap,
}
use hazle_os.Device.{BlockDevice}
use hazle_os.Fat32.{Fs, Volume, no_sector}
use hazle_os.Fat32.Table.{flush_cache, read_fat_sector, load_sector}
use hazle_os.Fat32.Table.Coherent.{IsGeometry, table, IsCoherent, IsSameTable}
use hazle_os.Fat32.Table.Flush.{
  and_then_of_true, and_then_of_false, unchanged, flush_cache-idle, flush_cache-IsSameTable,
}

module _ {B : BlockDevice} (fs : Fs) (g : IsGeometry fs) where
  pub trans : {v w x : Volume B} → IsSameTable fs v w → IsSameTable fs w x → IsSameTable fs v x
  trans p q = record { coherent = q.coherent; same = λ t ht j. q.same t ht j ∙ p.same t ht j }

  -- A read that fails changes nothing; one that succeeds brings in a sector of the first copy.
  pub reread :
      (v : Volume B) (d : BlockDevice.Dev B)
      → IsCoherent fs v
      → BlockDevice.sector B d ≡ BlockDevice.sector B v.dev
      → IsSameTable fs v (record v { dev = d })
  reread v d c e = record {
    coherent = record {
      cached = c.cached;
      clean = rw e c.clean;
      buffer_bytes = c.buffer_bytes;
      medium_bytes = rw e c.medium_bytes;
    };
    same = λ t ht j. rw e;
  }

  -- Under a clean or empty cache the table is the first copy.
  pub clean_table :
      (v : Volume B) (t j : ℕ)
      → IsCoherent fs v
      → v.fat_cache_dirty ≡ false ⊎ (v.cached_fat_sector ≡ no_sector)
      → t < fs.sectors_per_fat
      → table fs v t j ≡ BlockDevice.sector B v.dev (fs.first_fat_sector + t) j
  clean_table v t j c idle ht = elim (Bool-cases (v.cached_fat_sector == t)) [
    | inl hit ↦ rw hit (hit_case idle ((==_iff _ _).0 hit))
    | inr miss ↦ rw miss
  ]
    where
      hit_case :
          v.fat_cache_dirty ≡ false ⊎ (v.cached_fat_sector ≡ no_sector)
          → v.cached_fat_sector ≡ t
          → v.fat_sector_buffer j ≡ BlockDevice.sector B v.dev (fs.first_fat_sector + t) j
      hit_case (inl clean) e =
          c.clean clean (omega arith) j
          ∙ ap (λ n. BlockDevice.sector B v.dev (fs.first_fat_sector + n) j) e
      hit_case (inr none_cached) e = absurd (omega (arith, g.table_size))

  pub refill :
      (s : ℕ) (v : Volume B) (d : BlockDevice.Dev B) (buf : Buffer)
      → s < fs.sectors_per_fat
      → IsCoherent fs v
      → v.fat_cache_dirty ≡ false ⊎ (v.cached_fat_sector ≡ no_sector)
      → BlockDevice.sector B d ≡ BlockDevice.sector B v.dev
      → buf ≡ BlockDevice.sector B v.dev (fs.first_fat_sector + s)
      → IsSameTable fs v (record v { dev = d; fat_sector_buffer = buf; cached_fat_sector = s })
  refill s v d buf hs c idle e read = record {
    coherent = record {
      cached = inl hs;
      clean = λ _ _ j. rw (e, read);
      buffer_bytes = rw read (c.medium_bytes _);
      medium_bytes = rw e c.medium_bytes;
    };
    same = λ t ht j.
        rw (e, read, clean_table v t j c idle ht)
          (elim (Bool-cases (s == t)) [
            | inl hit ↦ rw hit (
                ap (λ n. BlockDevice.sector B v.dev (fs.first_fat_sector + n) j)
                  ((==_iff _ _).0 hit))
            | inr miss ↦ rw miss
          ]);
  }

  pub read_fat_sector-IsSameTable :
      (s : ℕ) (v : Volume B)
      → s < fs.sectors_per_fat
      → IsCoherent fs v
      → v.fat_cache_dirty ≡ false ⊎ (v.cached_fat_sector ≡ no_sector)
      → IsSameTable fs v (read_fat_sector fs s v).1
  unfolding read_fat_sector
  read_fat_sector-IsSameTable s v hs c idle =
      elim (Option-cases (BlockDevice.block_read B lba v.dev).0) [
        | inl failed ↦
            rw (failed, read_fat_sector) (reread v _ c (BlockDevice.read_same B lba v.dev))
        | inr (buf, got) ↦
            rw (got, read_fat_sector)
              (refill s v _ buf hs c idle (BlockDevice.read_same B lba v.dev) (
                BlockDevice.read_value B lba v.dev buf got
                ∙ ap (BlockDevice.sector B v.dev) in_range))
      ]
    where
      lba : ℕ
      lba = u32 (fs.first_fat_sector + s)

      in_range : lba ≡ fs.first_fat_sector + s
      in_range =
          omega
            (arith, g.fits, mul-le-mul_right {m = 1} {n = fs.num_fats} fs.sectors_per_fat g.copies)

  -- `fat_load_sector` keeps the table, and a success leaves the sector in the cache.
  pub load_sector-IsSameTable :
      (s : ℕ) (v : Volume B)
      → s < fs.sectors_per_fat
      → IsCoherent fs v
      → IsSameTable fs v (load_sector fs s v).1
  unfolding load_sector
  load_sector-IsSameTable s v hs c = elim (Bool-cases (v.cached_fat_sector == s)) [
    | inl hit ↦ rw hit (unchanged fs g v c)
    | inr miss ↦ rw miss (elim (Bool-cases (flush_cache fs v).0) [
      | inl done ↦ rw (and_then_of_true (flush_cache fs v) (read_fat_sector fs s) done) (
          trans flushed
            (read_fat_sector-IsSameTable s _ hs flushed.coherent (flush_cache-idle fs g v c done)))
      | inr failed ↦ rw (and_then_of_false (flush_cache fs v) (read_fat_sector fs s) failed) flushed
    ])
  ]
    where
      flushed : IsSameTable fs v (flush_cache fs v).1
      flushed = flush_cache-IsSameTable fs g v c

  pub load_sector-cached :
      (s : ℕ) (v : Volume B)
      → (load_sector fs s v).0 ≡ true
      → (load_sector fs s v).1.cached_fat_sector ≡ s
  unfolding load_sector read_fat_sector
  load_sector-cached s v done = ground arith
