-- ===== src/Fat32/Table/Entry.antt =====
-- `fat32_get_fat_entry` and `fat32_set_fat_entry` against the table of entries.
use hazle_os.Prelude.{
  ℕ, zero, suc, ◌+◌, ◌*◌, ◌/◌, ◌%◌, ◌^◌, ◌≤◌, ◌<◌, ◌≡◌, refl, ◌⊎◌, inl, inr, true, false, arith,
  ◌==◌, ==_iff, ==_refl, if◌then◌else◌, Buffer, u32, Bool-cases, ◌∙◌, ap, fun_ext, sym, ap₂, get32,
  set32, get32-lt, get32-set32_self, get32-set32_ne, set32-IsBytes,
}
use hazle_os.Device.{BlockDevice, IsReliable}
use hazle_os.Fat32.{Fs, Volume, bad_cluster}
use hazle_os.Fat32.Table.{
  flush_copies, flush_cache, read_fat_sector, load_sector, get_fat_entry, set_fat_entry,
  store_entry, merge_entry, fat_sector, entry_offset,
}
use hazle_os.Fat32.Table.Coherent.{IsGeometry, InTable, raw_entry, entry, IsCoherent, IsSameTable}
use hazle_os.Fat32.Table.Flush.{and_then_of_true, and_then_of_false}
use hazle_os.Fat32.Table.Load.{load_sector-IsSameTable, load_sector-cached}

module _ (fs : Fs) (g : IsGeometry fs) where
  at_sector : (c : ℕ) → InTable fs c → fat_sector fs c ≡ c * 4 / 512
  at_sector c h = rw g.sector_size (omega (arith, g.table_size))

  at_offset : (c : ℕ) → InTable fs c → entry_offset fs c ≡ c * 4 % 512
  at_offset c h = rw g.sector_size (omega (arith, g.table_size))

-- One link rewritten, the others as they were.
pub record IsStored {B : BlockDevice} (fs : Fs) (v w : Volume B) (c x : ℕ) : Type 0 where
  pub coherent : IsCoherent fs w
  pub stored : (k : ℕ) → InTable fs k → entry fs w k ≡ (if k == c then x % 2 ^ 28 else entry fs v k)

module _ {B : BlockDevice} (fs : Fs) (g : IsGeometry fs) where
  pub same_raw_entry :
      {v w : Volume B} (c : ℕ)
      → IsSameTable fs v w
      → InTable fs c
      → raw_entry fs w c ≡ raw_entry fs v c
  same_raw_entry c s h = ap (λ b. get32 b (c * 4 % 512)) (fun_ext (s.same (c * 4 / 512) h))

  pub same_entry :
      {v w : Volume B} (c : ℕ) → IsSameTable fs v w → InTable fs c → entry fs w c ≡ entry fs v c
  same_entry c s h = ap (λ n. n % 2 ^ 28) (same_raw_entry c s h)

  -- The entry of a cluster whose sector is cached.
  cached_raw_entry :
      (w : Volume B) (c : ℕ)
      → w.cached_fat_sector ≡ c * 4 / 512
      → raw_entry fs w c ≡ get32 w.fat_sector_buffer (c * 4 % 512)
  cached_raw_entry w c e = ap (λ b. get32 b (c * 4 % 512)) (rw e (rw ==_refl))

  module _ (w : Volume B) (c x : ℕ) (e : w.cached_fat_sector ≡ c * 4 / 512)
      (coherent : IsCoherent fs w) where
    abbrev value : ℕ
    value = merge_entry (get32 w.fat_sector_buffer (c * 4 % 512)) x

    abbrev stored : Buffer
    stored = set32 w.fat_sector_buffer (c * 4 % 512) value

    value-lt : value < 2 ^ 32
    value-lt = omega (arith, get32-lt w.fat_sector_buffer (c * 4 % 512) coherent.buffer_bytes)

    abbrev w' : Volume B
    w' = record w { fat_sector_buffer = stored; fat_cache_dirty = true }

    stored-IsCoherent : IsCoherent fs w'
    stored-IsCoherent = record {
      cached = coherent.cached;
      clean = λ dirty. cc;
      buffer_bytes = set32-IsBytes w.fat_sector_buffer (c * 4 % 512) value coherent.buffer_bytes;
      medium_bytes = coherent.medium_bytes;
    }

    apart :
        (k : ℕ)
        → w.cached_fat_sector ≡ k * 4 / 512
        → (k == c) ≡ false
        → (c * 4 % 512 + 4 ≤ k * 4 % 512) ⊎ (k * 4 % 512 + 4 ≤ c * 4 % 512)
    apart k hit other = ground arith

    stored_raw_entry : (k : ℕ) → raw_entry fs w' k ≡ (if k == c then value else raw_entry fs w k)
    stored_raw_entry k = elim (Bool-cases (k == c)) [
      | inl same ↦
          rw (same, (==_iff k c).0 same, e, ==_refl (c * 4 / 512))
            (get32-set32_self w.fat_sector_buffer (c * 4 % 512) value value-lt)
      | inr other ↦ rw other (elim (Bool-cases (w.cached_fat_sector == k * 4 / 512)) [
        | inl hit ↦ rw hit (
            get32-set32_ne w.fat_sector_buffer (c * 4 % 512) (k * 4 % 512) value
              (apart k ((==_iff _ _).0 hit) other))
        | inr miss ↦ rw miss
      ])
    ]

  module _ (c : ℕ) (v : Volume B) (h : InTable fs c) (coherent : IsCoherent fs v) where
    loaded_same : IsSameTable fs v (load_sector fs (fat_sector fs c) v).1
    loaded_same =
        load_sector-IsSameTable fs g (fat_sector fs c) v (rw (at_sector fs g c h) h) coherent

    loaded_cached :
        (load_sector fs (fat_sector fs c) v).0 ≡ true
        → (load_sector fs (fat_sector fs c) v).1.cached_fat_sector ≡ c * 4 / 512
    loaded_cached done = load_sector-cached fs g (fat_sector fs c) v done ∙ at_sector fs g c h

    -- The loaded sector is the table's.
    loaded_raw :
        (load_sector fs (fat_sector fs c) v).0 ≡ true
        → get32 (load_sector fs (fat_sector fs c) v).1.fat_sector_buffer (c * 4 % 512)
          ≡ raw_entry fs v c
    loaded_raw done =
        sym (cached_raw_entry (load_sector fs (fat_sector fs c) v).1 c (loaded_cached done))
        ∙ same_raw_entry c loaded_same h

    loaded_entry :
        (load_sector fs (fat_sector fs c) v).0 ≡ true
        → get32 (load_sector fs (fat_sector fs c) v).1.fat_sector_buffer (entry_offset fs c)
          ≡ raw_entry fs v c
    loaded_entry done = rw (at_offset fs g c h) (loaded_raw done)

    -- For a cluster of the table and a coherent cache, `fat32_get_fat_entry` returns the 28
    -- bits of the entry or the mark of a bad cluster, and keeps every entry and the
    -- coherence, on any device.
    pub get_fat_entry-entry :
        IsSameTable fs v (get_fat_entry fs c v).1
        × (((get_fat_entry fs c v).0 ≡ entry fs v c) ⊎ ((get_fat_entry fs c v).0 ≡ bad_cluster))
    unfolding get_fat_entry
    get_fat_entry-entry = (
      loaded_same,
      elim (Bool-cases (load_sector fs (fat_sector fs c) v).0) [
        | inl done ↦ inl (rw done (ap (λ n. n % 2 ^ 28) (loaded_entry done)))
        | inr failed ↦ inr (rw failed)
      ],
    )

    -- For a cluster of the table and a coherent cache, `fat32_set_fat_entry` either fails and
    -- keeps the table, or succeeds and writes one entry: its low 28 bits are the value's, its
    -- other bits and the other entries are as they were. The cache stays coherent.
    pub set_fat_entry-entry :
        (x : ℕ)
        → (((set_fat_entry fs c x v).0 ≡ false) × IsSameTable fs v (set_fat_entry fs c x v).1)
          ⊎ (((set_fat_entry fs c x v).0 ≡ true)
              × IsCoherent fs (set_fat_entry fs c x v).1
              × ((k : ℕ)
                  → InTable fs k
                  → raw_entry fs (set_fat_entry fs c x v).1 k
                    ≡ (if k == c then merge_entry (raw_entry fs v c) x else raw_entry fs v k)))
    unfolding set_fat_entry
    set_fat_entry-entry x = elim (Bool-cases (load_sector fs (fat_sector fs c) v).0) [
      | inl done ↦
          rw
            (and_then_of_true (load_sector fs (fat_sector fs c) v)
              (store_entry fs (entry_offset fs c) x) done)
            (rw (at_offset fs g c h) (
              inr (
                refl,
                stored-IsCoherent loaded c x (loaded_cached done) loaded_same.coherent,
                λ k hk.
                    stored_raw_entry loaded c x (loaded_cached done) loaded_same.coherent k
                    ∙ ap₂ (λ m n. if k == c then merge_entry m x else n) (loaded_raw done)
                        (same_raw_entry k loaded_same hk),
              )))
      | inr failed ↦
          rw
            (and_then_of_false (load_sector fs (fat_sector fs c) v)
              (store_entry fs (entry_offset fs c) x) failed)
            (inl (refl, loaded_same))
    ]
      where
        loaded : Volume B
        loaded = (load_sector fs (fat_sector fs c) v).1

  -- On a reliable device the sector always loads.
  module _ (r : IsReliable B) where
    flush_copies-reliable :
        (cached : ℕ) (buf : Buffer) (n i : ℕ) (d : BlockDevice.Dev B)
        → (flush_copies B fs cached buf n i d).0 ≡ true
    unfolding flush_copies
    flush_copies-reliable cached buf zero i d = refl
    flush_copies-reliable cached buf (suc n) i d =
        rw
          (and_then_of_true
            (BlockDevice.block_write B
              (u32 (u32 (fs.first_fat_sector + u32 (i * fs.sectors_per_fat)) + cached)) buf d)
            (flush_copies B fs cached buf n (i + 1)) (r.writes _ buf d))
          (flush_copies-reliable cached buf n (i + 1) _)

    pub flush_cache-reliable : (v : Volume B) → (flush_cache fs v).0 ≡ true
    unfolding flush_cache
    flush_cache-reliable v =
        ground
          (arith, flush_copies-reliable v.cached_fat_sector v.fat_sector_buffer fs.num_fats 0 v.dev)

    read_fat_sector-reliable : (s : ℕ) (v : Volume B) → (read_fat_sector fs s v).0 ≡ true
    unfolding read_fat_sector
    read_fat_sector-reliable s v = ground (arith, r.reads (u32 (fs.first_fat_sector + s)) v.dev)

    load_sector-reliable : (s : ℕ) (v : Volume B) → (load_sector fs s v).0 ≡ true
    unfolding load_sector
    load_sector-reliable s v =
        ground (arith, flush_cache-reliable v, read_fat_sector-reliable s (flush_cache fs v).1)

    module _ (c : ℕ) (v : Volume B) (h : InTable fs c) (coherent : IsCoherent fs v) where
      pub get_fat_entry-reliable : (get_fat_entry fs c v).0 ≡ entry fs v c
      unfolding get_fat_entry
      get_fat_entry-reliable = rw (load_sector-reliable (fat_sector fs c) v) (
          ap (λ n. n % 2 ^ 28)
            (loaded_entry c v h coherent (load_sector-reliable (fat_sector fs c) v)))

      pub set_fat_entry-reliable : (x : ℕ) → (set_fat_entry fs c x v).0 ≡ true
      unfolding set_fat_entry store_entry
      set_fat_entry-reliable x = rw (
          and_then_of_true (load_sector fs (fat_sector fs c) v)
            (store_entry fs (entry_offset fs c) x) (load_sector-reliable (fat_sector fs c) v))

      -- There `fat32_set_fat_entry` always succeeds.
      pub set_fat_entry-IsStored : (x : ℕ) → IsStored fs v (set_fat_entry fs c x v).1 c x
      set_fat_entry-IsStored x = elim (set_fat_entry-entry c v h coherent x) [
        | inl (failed, _) ↦ absurd (cc (set_fat_entry-reliable x))
        | inr (_, coherent', raw) ↦ record {
          coherent = coherent';
          stored = λ k hk. ground (arith, raw k hk);
        }
      ]
