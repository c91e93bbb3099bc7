-- ===== src/Fat32/Tests.antt =====
-- A small volume in memory, on which the theorems on drivers/fat32 are tried.
pub mod Files
pub mod Table
use hazle_os.Prelude.{
  ℕ, ◌≡◌, refl, ◌≢◌, true, false, some, none, arith, inr, if◌then◌else◌, ◌==◌, Buffer, blank,
  IsBytes, update, set32, set16, set32-IsBytes, ◌<◌, ◌+◌, ◌%◌, ◌/◌, ◌^◌, ◌*◌,
}
use hazle_os.Device.{BlockDevice, IsReliable}
use hazle_os.Fat32.{Fs, Volume, no_sector, eoc}
use hazle_os.Fat32.Table.Coherent.{IsGeometry, IsCoherent}
use hazle_os.Fat32.Table.Alloc.{IsSized}
use hazle_os.Fat32.Bpb.{root_path}
use hazle_os.Fat32.Bpb.Layout.{IsLaidOut}

pub some_inj : {s t : Buffer} → some t ≡ some s → s ≡ t
some_inj e = cc

pub true_not_false : true ≢ false
true_not_false e = cc

abbrev pub ram : BlockDevice
ram = record {
  Dev = ℕ → Buffer;
  block_read = λ n d. (some (d n), d);
  block_write = λ n s d. (true, update d n s);
  block_flush = λ d. (true, d);
  sector = λ d. d;
  read_same = λ n d. refl;
  read_value = λ n d s e. some_inj e;
  write_value = λ n s d e. refl;
  write_failed = λ n s d e. absurd (true_not_false e);
  flush_same = λ d. refl;
}

pub ram-IsReliable : IsReliable ram
ram-IsReliable = record { reads = λ n d e. cc; writes = λ n s d. refl }

-- 2 reserved sectors, two copies of a table of one sector, 8 clusters of one sector.
abbrev pub small_fs : Fs
small_fs = record {
  mounted = true;
  bytes_per_sector = 512;
  sectors_per_cluster = 1;
  bytes_per_cluster = 512;
  reserved_sectors = 2;
  num_fats = 2;
  sectors_per_fat = 1;
  root_cluster = 2;
  first_fat_sector = 2;
  first_data_sector = 4;
  total_clusters = 8;
  total_sectors = 12;
  current_directory = 2;
  current_path = root_path;
}

pub small_fs-IsGeometry : IsGeometry small_fs
small_fs-IsGeometry = record {
  sector_size = refl;
  copies = omega arith;
  fits = omega arith;
  table_size = omega arith;
}

pub small_fs-IsSized : IsSized small_fs
small_fs-IsSized = omega arith

pub small_fs-IsLaidOut : IsLaidOut small_fs
small_fs-IsLaidOut = record {
  cluster_size = omega arith;
  data_after_fats = refl;
  data_fits = omega arith;
  total_fits = omega arith;
  clusters_fit = omega arith;
  cluster_small = omega arith;
  buffer_size = refl;
}

-- The medium with one table in both copies.
abbrev pub with_table : Buffer → ℕ → Buffer
with_table t n = if n == 2 then t else if n == 3 then t else blank

-- Cluster 2 leads to 3, which is the last of its chain.
abbrev pub two_links : Buffer
two_links = set32 (set32 blank 8 3) 12 eoc

-- Cluster 5 leads to itself.
abbrev pub circle : Buffer
circle j = if j == 20 then 5 else 0

abbrev pub unread : Buffer → Volume ram
unread t = record {
  dev = with_table t;
  fat_sector_buffer = blank;
  cached_fat_sector = no_sector;
  fat_cache_dirty = false;
}

pub unread-IsCoherent : (t : Buffer) → IsBytes t → IsCoherent small_fs (unread t)
unread-IsCoherent t h = record {
  cached = inr refl;
  clean = λ e le j. absurd (omega arith);
  buffer_bytes = λ j. omega arith;
  medium_bytes = λ n j. ground (arith, h j);
}

pub two_links-IsBytes : IsBytes two_links
two_links-IsBytes =
    set32-IsBytes (set32 blank 8 3) 12 eoc (set32-IsBytes blank 8 3 (λ j. omega arith))

pub circle-IsBytes : IsBytes circle
circle-IsBytes j = ground arith
