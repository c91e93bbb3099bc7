-- ===== src/Fat32/Bpb.antt =====
-- drivers/fat32/bpb.c: the boot sector, the sectors of a cluster, and whole-cluster transfers.
pub mod Fields
pub mod Layout
pub mod Links
pub mod Transfer
pub mod Sectors
pub mod Tests
use Fields
use hazle_os.Prelude.{
  ℕ, zero, suc, ◌+◌, ◌-◌, ◌*◌, ◌/◌, ◌<◌, ◌≡◌, Bool, true, false, not, ◌&&◌, ◌||◌, List, [], ◌∷◌,
  Option, none, some, leb, ltb, ◌==◌, if◌then◌else◌, Buffer, blank, u32, sub32, get16, get32,
}
use hazle_os.Device.{BlockDevice}
use hazle_os.Fat32.{Fs, Volume, eoc_min}
use hazle_os.Fat32.Table.{and_then}

-- `divide_error` is the division by a zero `sectors_per_cluster`, which traps.
pub data Parsed : Type 0 where
  refused divide_error : Parsed
  parsed : Fs → Parsed

abbrev pub root_path : List ℕ
root_path = b'/' ∷ []

pub is_sector_size : ℕ → Bool
is_sector_size n = (n == 512) || (n == 1024) || (n == 2048) || (n == 4096)

pub total_sectors : Buffer → ℕ
total_sectors b =
    if ltb 0 (Fields.total_sectors_32 b)
    then Fields.total_sectors_32 b
    else Fields.total_sectors_16 b

pub first_data_sector : Buffer → ℕ
first_data_sector b =
    u32 (Fields.reserved_sectors b + u32 (Fields.num_fats b * Fields.sectors_per_fat_32 b))

-- What `fat32_parse_bpb` stores. `mounted` is left as it was.
pub fs_of_sector : Bool → Buffer → Fs
unfolding total_sectors first_data_sector
fs_of_sector mounted b = record {
  mounted = mounted;
  bytes_per_sector = Fields.bytes_per_sector b;
  sectors_per_cluster = Fields.sectors_per_cluster b;
  bytes_per_cluster = u32 (Fields.bytes_per_sector b * Fields.sectors_per_cluster b);
  reserved_sectors = Fields.reserved_sectors b;
  num_fats = Fields.num_fats b;
  sectors_per_fat = Fields.sectors_per_fat_32 b;
  root_cluster = Fields.root_cluster b;
  first_fat_sector = Fields.reserved_sectors b;
  first_data_sector = first_data_sector b;
  total_clusters = sub32 (total_sectors b) (first_data_sector b) / Fields.sectors_per_cluster b;
  total_sectors = total_sectors b;
  current_directory = Fields.root_cluster b;
  current_path = root_path;
}

pub parse_sector : Bool → Buffer → Parsed
unfolding is_sector_size fs_of_sector
parse_sector mounted b =
    if not (is_sector_size (Fields.bytes_per_sector b))
    then refused
    else if not (Fields.sectors_per_fat_16 b == 0)
    then refused
    else if Fields.sectors_per_cluster b == 0
    then divide_error
    else parsed (fs_of_sector mounted b)

pub cluster_to_lba : Fs → ℕ → ℕ
cluster_to_lba fs cluster =
    u32 (fs.first_data_sector + u32 (sub32 cluster 2 * fs.sectors_per_cluster))

pub lba_to_cluster : Fs → ℕ → ℕ
lba_to_cluster fs lba = u32 (sub32 lba fs.first_data_sector / fs.sectors_per_cluster + 2)

unfoldable pub is_eoc : ℕ → Bool
is_eoc entry = leb eoc_min entry

-- 512 bytes of a sector, put into the buffer from `at` on.
abbrev pub place_sector : Buffer → ℕ → Buffer → Buffer
place_sector buffer at s j = if leb at j && ltb j (at + 512) then s (j - at) else buffer j

-- The sector that the 512 bytes from `at` on make.
abbrev pub cut_sector : Buffer → ℕ → Buffer
cut_sector buffer at j = buffer (at + j)

module _ (B : BlockDevice) (fs : Fs) where
  -- The loop of `fat32_read_cluster` at sector `i`, with `n` sectors left.
  pub read_sectors : (lba n i : ℕ) → Buffer → BlockDevice.Dev B → Option Buffer × BlockDevice.Dev B
  read_sectors lba zero i buffer d = (some buffer, d)
  read_sectors lba (suc n) i buffer d =
      let (got, d') = BlockDevice.block_read B (u32 (lba + i)) d in
      elim got [
        | none ↦ (none, d')
        | some s ↦ read_sectors lba n (i + 1) (place_sector buffer (i * fs.bytes_per_sector) s) d'
      ]

  -- The loop of `fat32_write_cluster`.
  pub write_sectors : (lba n i : ℕ) → Buffer → BlockDevice.Dev B → Bool × BlockDevice.Dev B
  write_sectors lba zero i buffer d = (true, d)
  write_sectors lba (suc n) i buffer d =
      and_then
        (BlockDevice.block_write B (u32 (lba + i)) (cut_sector buffer (i * fs.bytes_per_sector)) d)
        (write_sectors lba n (i + 1) buffer)

module _ {B : BlockDevice} where
  pub parse_bpb : Bool → Volume B → Parsed × Volume B
  unfolding parse_sector
  parse_bpb mounted v =
      let (got, d) = BlockDevice.block_read B 0 v.dev in
      (elim got [ none ↦ refused | some b ↦ parse_sector mounted b ], record v { dev = d })

module _ {B : BlockDevice} (fs : Fs) where
  -- `none` is the return of false, after which no caller reads the buffer.
  pub read_cluster : ℕ → Buffer → Volume B → Option Buffer × Volume B
  unfolding read_sectors cluster_to_lba
  read_cluster cluster buffer v =
      let (got, d) =
        read_sectors B fs (cluster_to_lba fs cluster) fs.sectors_per_cluster 0 buffer v.dev in
      (got, record v { dev = d })

  pub write_cluster : ℕ → Buffer → Volume B → Bool × Volume B
  unfolding write_sectors cluster_to_lba
  write_cluster cluster buffer v =
      let (written, d) =
        write_sectors B fs (cluster_to_lba fs cluster) fs.sectors_per_cluster 0 buffer v.dev in
      (written, record v { dev = d })
