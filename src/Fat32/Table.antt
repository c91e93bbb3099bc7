-- ===== src/Fat32/Table.antt =====
-- drivers/fat32/fat.c: the file allocation table behind a one-sector write-back cache.
pub mod Alloc
pub mod Chain
pub mod Links
pub mod Coherent
pub mod Data
pub mod Entry
pub mod Load
pub mod Flush
use hazle_os.Prelude.{
  ℕ, zero, suc, ◌+◌, ◌*◌, ◌/◌, ◌%◌, ◌^◌, Bool, true, false, not, ◌&&◌, Option, none, some, leb, ltb,
  ◌==◌, if◌then◌else◌, Buffer, u32, get32, set32,
}
use hazle_os.Device.{BlockDevice}
use hazle_os.Fat32.{Fs, Volume, no_sector, eoc_min, eoc, free_cluster, bad_cluster}

abbrev pub fat_sector : Fs → ℕ → ℕ
fat_sector fs cluster = u32 (cluster * 4) / fs.bytes_per_sector

abbrev pub entry_offset : Fs → ℕ → ℕ
entry_offset fs cluster = u32 (cluster * 4) % fs.bytes_per_sector

-- `(old & 0xF0000000) | (value & 0x0FFFFFFF)`
abbrev pub merge_entry : ℕ → ℕ → ℕ
merge_entry old value = old / 2 ^ 28 * 2 ^ 28 + value % 2 ^ 28

-- `cluster >= 2 && cluster < FAT32_EOC_MIN`
abbrev pub in_chain : ℕ → Bool
in_chain cluster = leb 2 cluster && ltb cluster eoc_min

-- `if (!step) return false;` before what follows.
abbrev pub and_then {ℓ} : {S : Type ℓ} → Bool × S → (S → Bool × S) → Bool × S
and_then (true, s) next = next s
and_then (false, s) next = (false, s)

-- The loop of `fat_flush_cache` at copy `i`, with `n` copies left.
pub flush_copies :
    (B : BlockDevice) (fs : Fs) (cached : ℕ) (buf : Buffer) (n i : ℕ)
    → BlockDevice.Dev B
    → Bool × BlockDevice.Dev B
flush_copies B fs cached buf zero i d = (true, d)
flush_copies B fs cached buf (suc n) i d =
    and_then
      (BlockDevice.block_write B
        (u32 (u32 (fs.first_fat_sector + u32 (i * fs.sectors_per_fat)) + cached)) buf d)
      (flush_copies B fs cached buf n (i + 1))

module _ {B : BlockDevice} (fs : Fs) where
  -- The flag is cleared only when every copy is written.
  pub flush_cache : Volume B → Bool × Volume B
  unfolding flush_copies
  flush_cache v =
      if v.fat_cache_dirty && not (v.cached_fat_sector == no_sector)
      then (let (flushed, d) =
            flush_copies B fs v.cached_fat_sector v.fat_sector_buffer fs.num_fats 0 v.dev in
          (flushed, record v { dev = d; fat_cache_dirty = not flushed }))
      else (true, v)

  -- The read of `fat_load_sector`.
  pub read_fat_sector : ℕ → Volume B → Bool × Volume B
  read_fat_sector sector v =
      let (got, d) = BlockDevice.block_read B (u32 (fs.first_fat_sector + sector)) v.dev in
      elim got [
        | none ↦ (false, record v { dev = d })
        | some buf ↦
            (true, record v { dev = d; fat_sector_buffer = buf; cached_fat_sector = sector })
      ]

  pub load_sector : ℕ → Volume B → Bool × Volume B
  unfolding read_fat_sector
  load_sector sector v =
      if v.cached_fat_sector == sector
      then (true, v)
      else and_then (flush_cache v) (read_fat_sector sector)

  pub get_fat_entry : ℕ → Volume B → ℕ × Volume B
  get_fat_entry cluster v =
      let (loaded, w) = load_sector (fat_sector fs cluster) v in
      (
        if loaded
            then get32 w.fat_sector_buffer (entry_offset fs cluster) % 2 ^ 28
            else bad_cluster,
        w,
      )

  -- The write of `fat32_set_fat_entry` into the loaded sector.
  pub store_entry : (at value : ℕ) → Volume B → Bool × Volume B
  store_entry at value v = (
    true,
    record v {
      fat_sector_buffer =
          set32 v.fat_sector_buffer at (merge_entry (get32 v.fat_sector_buffer at) value);
      fat_cache_dirty = true;
    },
  )

  pub set_fat_entry : (cluster value : ℕ) → Volume B → Bool × Volume B
  unfolding store_entry
  set_fat_entry cluster value v =
      and_then (load_sector (fat_sector fs cluster) v) (store_entry (entry_offset fs cluster) value)

  -- The loop of `fat32_find_free_cluster` at `cluster`, with `n` clusters left.
  pub find_free_from : (n cluster : ℕ) → Volume B → ℕ × Volume B
  find_free_from zero cluster v = (0, v)
  find_free_from (suc n) cluster v =
      let (entry, w) = get_fat_entry cluster v in
      let rest = find_free_from n (cluster + 1) w in
      if entry == free_cluster then (cluster, w) else rest

  pub find_free_cluster : Volume B → ℕ × Volume B
  find_free_cluster v = find_free_from fs.total_clusters 2 v

  pub allocate_cluster : Volume B → ℕ × Volume B
  allocate_cluster v =
      let (cluster, w) = find_free_cluster v in
      if cluster == 0
      then (0, w)
      else (let (stored, x) = set_fat_entry cluster eoc w in (if stored then cluster else 0, x))

  pub extend_chain : (last_cluster new_cluster : ℕ) → Volume B → Bool × Volume B
  extend_chain last_cluster new_cluster v = set_fat_entry last_cluster new_cluster v

  -- The loop of `fat32_free_chain`; `none` means that the fuel ran out.
  pub free_chain : (fuel cluster : ℕ) → Volume B → Option (Bool × Volume B)
  free_chain zero cluster v = none
  free_chain (suc fuel) cluster v =
      let (next, w) = get_fat_entry cluster v in
      let (stored, x) = set_fat_entry cluster free_cluster w in
      let rest = free_chain fuel next x in
      if in_chain cluster then if stored then rest else some (false, x) else some (flush_cache v)

  pub count_free_from : (n cluster count : ℕ) → Volume B → ℕ × Volume B
  count_free_from zero cluster count v = (count, v)
  count_free_from (suc n) cluster count v =
      let (entry, w) = get_fat_entry cluster v in
      count_free_from n (cluster + 1) (if entry == free_cluster then u32 (count + 1) else count) w

  pub count_free_clusters : Volume B → ℕ × Volume B
  count_free_clusters v = count_free_from fs.total_clusters 2 0 v

  -- The loop of `fat32_get_chain_length`.
  pub chain_length : (fuel cluster count : ℕ) → Volume B → Option (ℕ × Volume B)
  chain_length zero cluster count v = none
  chain_length (suc fuel) cluster count v =
      let (next, w) = get_fat_entry cluster v in
      let rest = chain_length fuel next (u32 (count + 1)) w in
      if in_chain cluster then rest else some (count, v)

  pub sync_fat : Volume B → Bool × Volume B
  sync_fat v = flush_cache v

  pub invalidate_fat_cache : Volume B → Volume B
  invalidate_fat_cache v = record ((flush_cache v).1) { cached_fat_sector = no_sector }
