-- ===== src/Fat32/Table/Flush.antt =====
-- `fat_flush_cache`: what the writes of the copies leave on the medium.
use native.Mathlib.Nat.{mul-le-mul_right}
use native.Mathlib.Decide.{dec_lt}
use hazle_os.Prelude.{
  ℕ, zero, suc, ◌+◌, ◌*◌, ◌≤◌, ◌<◌, ◌≡◌, ◌≢◌, refl, ◌⊎◌, inl, inr, Bool, true, false, not, arith,
  ◌==◌, Buffer, IsBytes, u32, Bool-cases, ◌∙◌, ap, sym, ne→==,
}
use hazle_os.Device.{BlockDevice}
use hazle_os.Fat32.{Fs, Volume, no_sector}
use hazle_os.Fat32.Table.{and_then, flush_copies, flush_cache}
use hazle_os.Fat32.Table.Coherent.{IsGeometry, IsCoherent, IsSameTable, copy_lba}

module _ {ℓ κ} {S : Type ℓ} where
  pub and_then-keeps :
      (P : S → Type κ) (r : Bool × S) (next : S → Bool × S)
      → P r.1
      → ((s : S) → P s → P (next s).1)
      → P (and_then r next).1
  and_then-keeps P (true, s) next h keep = keep s h
  and_then-keeps P (false, s) next h keep = h

module _ {ℓ} {S : Type ℓ} where
  pub and_then-true :
      (r : Bool × S) (next : S → Bool × S)
      → (and_then r next).0 ≡ true
      → (r.0 ≡ true) × (and_then r next ≡ next r.1)
  and_then-true (true, s) next h = (refl, refl)
  and_then-true (false, s) next h = cc

  pub and_then_of_true :
      (r : Bool × S) (next : S → Bool × S) → r.0 ≡ true → and_then r next ≡ next r.1
  and_then_of_true (true, s) next h = refl
  and_then_of_true (false, s) next h = cc

  pub and_then_of_false :
      (r : Bool × S) (next : S → Bool × S) → r.0 ≡ false → and_then r next ≡ (false, r.1)
  and_then_of_false (true, s) next h = cc
  and_then_of_false (false, s) next h = refl

module _ (B : BlockDevice) where
  -- A write changes at most its own sector, failed or not.
  pub write_other :
      (n m : ℕ) (s : Buffer) (d : BlockDevice.Dev B)
      → m ≢ n
      → BlockDevice.sector B (BlockDevice.block_write B n s d).1 m ≡ BlockDevice.sector B d m
  write_other n m s d ne = elim (Bool-cases ((BlockDevice.block_write B n s d).0)) [
    | inl done ↦ rw (BlockDevice.write_value B n s d done, ne→== m n ne)
    | inr failed ↦ rw (BlockDevice.write_failed B n s d failed)
  ]

  pub write_self :
      (n : ℕ) (s : Buffer) (d : BlockDevice.Dev B)
      → (BlockDevice.block_write B n s d).0 ≡ true
      → BlockDevice.sector B (BlockDevice.block_write B n s d).1 n ≡ s
  write_self n s d done = rw (BlockDevice.write_value B n s d done) (ground arith)

  pub write-IsBytes :
      (n : ℕ) (s : Buffer) (d : BlockDevice.Dev B)
      → IsBytes s
      → ((m : ℕ) → IsBytes (BlockDevice.sector B d m))
      → (m : ℕ) → IsBytes (BlockDevice.sector B (BlockDevice.block_write B n s d).1 m)
  write-IsBytes n s d hs hd m j = elim (Bool-cases ((BlockDevice.block_write B n s d).0)) [
    | inl done ↦ rw (BlockDevice.write_value B n s d done) (ground (arith, hs j, hd m j))
    | inr failed ↦ rw (BlockDevice.write_failed B n s d failed) (hd m j)
  ]

module _ (B : BlockDevice) (fs : Fs) (cached : ℕ) (buf : Buffer) (g : IsGeometry fs)
    (in_table : cached < fs.sectors_per_fat) where
  abbrev sector_of_copy : ℕ → ℕ
  sector_of_copy j = fs.first_fat_sector + j * fs.sectors_per_fat + cached

  -- A sector that is no copy of the cached one is untouched, also when a write fails.
  pub flush_copies-other :
      (n i m : ℕ) (d : BlockDevice.Dev B)
      → i + n ≤ fs.num_fats
      → ((j : ℕ) → i ≤ j → j < i + n → m ≢ sector_of_copy j)
      → BlockDevice.sector B (flush_copies B fs cached buf n i d).1 m ≡ BlockDevice.sector B d m
  unfolding flush_copies
  flush_copies-other zero i m d h other = refl
  flush_copies-other (suc n) i m d h other = rw (copy_lba fs i cached g (omega arith) in_table) (
      and_then-keeps (λ e. BlockDevice.sector B e m ≡ BlockDevice.sector B d m)
        (BlockDevice.block_write B (sector_of_copy i) buf d)
        (flush_copies B fs cached buf n (i + 1))
        (write_other B (sector_of_copy i) m buf d (other i (omega arith) (omega arith)))
        λ e same.
          flush_copies-other n (i + 1) m e (omega arith)
            (λ j lo hi. other j (omega arith) (omega arith))
          ∙ same)

  copies_apart : (i j : ℕ) → i < j → sector_of_copy i ≢ sector_of_copy j
  copies_apart i j h e =
      absurd (omega (arith, mul-le-mul_right {m = suc i} {n = j} fs.sectors_per_fat h))

  -- After a success every copy holds the buffer.
  flush_copies-written :
      (n i j : ℕ) (d : BlockDevice.Dev B)
      → i + n ≤ fs.num_fats
      → (flush_copies B fs cached buf n i d).0 ≡ true
      → i ≤ j
      → j < i + n
      → BlockDevice.sector B (flush_copies B fs cached buf n i d).1 (sector_of_copy j) ≡ buf
  unfolding flush_copies
  flush_copies-written zero i j d h done lo hi = absurd (omega arith)
  flush_copies-written (suc n) i j d h done lo hi =
      let lba = copy_lba fs i cached g (omega arith) in_table in
      let (written, rest) =
        and_then-true
          (BlockDevice.block_write B
            (u32 (u32 (fs.first_fat_sector + u32 (i * fs.sectors_per_fat)) + cached)) buf d)
          (flush_copies B fs cached buf n (i + 1)) done in
      elim (dec_lt i j) [
        | yes later ↦ rw rest (
            flush_copies-written n (i + 1) j _ (omega arith) (ap (λ r. r.0) (sym rest) ∙ done)
              (omega arith) (omega arith))
        | no first ↦
            let same : j ≡ i = omega arith in
            rw (same, rest)
              (flush_copies-other n (i + 1) (sector_of_copy i) _ (omega arith)
                  (λ k after before. copies_apart i k (omega arith))
                ∙ rw (← lba) (write_self B _ buf d written))
      ]

  flush_copies-IsBytes :
      (n i : ℕ) (d : BlockDevice.Dev B)
      → IsBytes buf
      → ((m : ℕ) → IsBytes (BlockDevice.sector B d m))
      → (m : ℕ) → IsBytes (BlockDevice.sector B (flush_copies B fs cached buf n i d).1 m)
  unfolding flush_copies
  flush_copies-IsBytes zero i d hb hd = hd
  flush_copies-IsBytes (suc n) i d hb hd =
      and_then-keeps (λ e. (m : ℕ) → IsBytes (BlockDevice.sector B e m))
        (BlockDevice.block_write B
          (u32 (u32 (fs.first_fat_sector + u32 (i * fs.sectors_per_fat)) + cached)) buf d)
        (flush_copies B fs cached buf n (i + 1)) (write-IsBytes B _ buf d hb hd)
        λ e he. flush_copies-IsBytes n (i + 1) e hb he

module _ {B : BlockDevice} (fs : Fs) (g : IsGeometry fs) (v : Volume B) (c : IsCoherent fs v) where
  abbrev flushed_dev : BlockDevice.Dev B
  flushed_dev = (flush_copies B fs v.cached_fat_sector v.fat_sector_buffer fs.num_fats 0 v.dev).1

  -- The cached sector in the table, or the mark of an empty cache.
  flushed-other :
      (t : ℕ)
      → v.cached_fat_sector < fs.sectors_per_fat
      → t < fs.sectors_per_fat
      → t ≢ v.cached_fat_sector
      → BlockDevice.sector B flushed_dev (fs.first_fat_sector + t)
        ≡ BlockDevice.sector B v.dev (fs.first_fat_sector + t)
  flushed-other t hc ht ne =
      flush_copies-other B fs v.cached_fat_sector v.fat_sector_buffer g hc fs.num_fats 0
        (fs.first_fat_sector + t) v.dev (omega arith) λ j lo hi e. ne (apart j e)
    where
      apart :
          (j : ℕ)
          → fs.first_fat_sector + t
            ≡ fs.first_fat_sector + j * fs.sectors_per_fat + v.cached_fat_sector
          → t ≡ v.cached_fat_sector
      apart zero e = omega arith
      apart (suc j) e = omega (arith, mul-le-mul_right {m = 1} {n = suc j} fs.sectors_per_fat)

  -- A successful flush leaves the cached sector in the first copy.
  flushed_self :
      v.cached_fat_sector < fs.sectors_per_fat
      → (flush_copies B fs v.cached_fat_sector v.fat_sector_buffer fs.num_fats 0 v.dev).0 ≡ true
      → BlockDevice.sector B flushed_dev (fs.first_fat_sector + v.cached_fat_sector)
        ≡ v.fat_sector_buffer
  flushed_self hc done =
      ap (λ n. BlockDevice.sector B flushed_dev n) (omega arith)
      ∙ flush_copies-written B fs v.cached_fat_sector v.fat_sector_buffer g hc fs.num_fats 0 0 v.dev
          (omega arith) done (omega arith) (omega (arith, g.copies))

  flush_dirty : Bool × Volume B
  flush_dirty =
      let r = flush_copies B fs v.cached_fat_sector v.fat_sector_buffer fs.num_fats 0 v.dev in
      (r.0, record v { dev = r.1; fat_cache_dirty = not r.0 })

  flush_dirty-IsSameTable :
      v.cached_fat_sector < fs.sectors_per_fat → IsSameTable fs v flush_dirty.1
  unfolding flush_dirty
  flush_dirty-IsSameTable hc = record {
    coherent = record {
      cached = c.cached;
      clean = λ done h j. ap (λ (s : Buffer). s j) (sym (flushed_self hc (ground arith)));
      buffer_bytes = c.buffer_bytes;
      medium_bytes =
          flush_copies-IsBytes B fs v.cached_fat_sector v.fat_sector_buffer g hc fs.num_fats 0 v.dev
            c.buffer_bytes c.medium_bytes;
    };
    same = λ t ht j. elim (Bool-cases (v.cached_fat_sector == t)) [
      | inl hit ↦ rw hit
      | inr miss ↦ rw miss (ap (λ (s : Buffer). s j) (flushed-other t hc ht (ground arith)))
    ];
  }

  pub unchanged : IsSameTable fs v v
  unchanged = record { coherent = c; same = λ t ht j. refl }

  flush_cache-cases :
      (flush_cache fs v ≡ (true, v))
      ⊎ ((v.cached_fat_sector < fs.sectors_per_fat) × (flush_cache fs v ≡ flush_dirty))
  unfolding flush_cache flush_dirty
  flush_cache-cases = elim c.cached [
    | inl hc ↦ ground (arith, g.table_size)
    | inr none_cached ↦ inl (ground arith)
  ]

  -- What a successful flush leaves to load another sector.
  pub flush_cache-idle :
      (flush_cache fs v).0 ≡ true
      → ((flush_cache fs v).1.fat_cache_dirty ≡ false)
        ⊎ ((flush_cache fs v).1.cached_fat_sector ≡ no_sector)
  unfolding flush_cache
  flush_cache-idle done = ground arith

  -- Flushing changes no entry of the table, also when it fails.
  pub flush_cache-IsSameTable : IsSameTable fs v (flush_cache fs v).1
  flush_cache-IsSameTable = elim flush_cache-cases [
    | inl idle ↦ rw idle unchanged
    | inr (hc, e) ↦ rw e (flush_dirty-IsSameTable hc)
  ]

  -- After a successful `fat_flush_cache` of a dirty cache that holds a sector of the table, the
  -- cache is clean and every copy of the table on the medium holds that sector. Sectors have
  -- 512 bytes, and the tables end below 2^32 sectors.
  pub flush_cache-mirrors :
      (flush_cache fs v).0 ≡ true
      → v.cached_fat_sector < fs.sectors_per_fat
      → v.fat_cache_dirty ≡ true
      → ((flush_cache fs v).1.fat_cache_dirty ≡ false)
        × ((j : ℕ)
            → j < fs.num_fats
            → BlockDevice.sector B
                (flush_cache fs v).1.dev
                (fs.first_fat_sector + j * fs.sectors_per_fat + v.cached_fat_sector)
              ≡ v.fat_sector_buffer)
  unfolding flush_dirty flush_copies
  flush_cache-mirrors done hc dirty = rw ran (
    ap not flushed,
    λ j hj.
        flush_copies-written B fs v.cached_fat_sector v.fat_sector_buffer g hc fs.num_fats 0 j v.dev
          (omega arith) flushed (omega arith) (omega arith),
  )
    where
      ran : flush_cache fs v ≡ flush_dirty
      ran = unfold flush_cache in ground (arith, g.table_size)

      flushed :
          (flush_copies B fs v.cached_fat_sector v.fat_sector_buffer fs.num_fats 0 v.dev).0 ≡ true
      flushed = ap (λ r. r.0) (sym ran) ∙ done
