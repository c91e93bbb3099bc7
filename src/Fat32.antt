-- ===== src/Fat32.antt =====
-- The FAT32 file system of drivers/fat32: the state that its files share.
pub mod Bpb
pub mod Directory
pub mod Mount
pub mod Path
pub mod File
pub mod Table
pub mod Tests
use hazle_os.Prelude.{ℕ, ◌^◌, Bool, List, Buffer, ltb}
use hazle_os.Device.{BlockDevice}

-- `fat32_fs_t`. A path is the list of its characters, without the final zero byte.
pub record Fs : Type 0 where
  pub mounted : Bool
  pub bytes_per_sector : ℕ
  pub sectors_per_cluster : ℕ
  pub bytes_per_cluster : ℕ
  pub reserved_sectors : ℕ
  pub num_fats : ℕ
  pub sectors_per_fat : ℕ
  pub root_cluster : ℕ
  pub first_fat_sector : ℕ
  pub first_data_sector : ℕ
  pub total_clusters : ℕ
  pub total_sectors : ℕ
  pub current_directory : ℕ
  pub current_path : List ℕ

-- The static variables of fat.c, with the device under them.
pub record Volume (B : BlockDevice) : Type 0 where
  pub dev : BlockDevice.Dev B
  pub fat_sector_buffer : Buffer
  pub cached_fat_sector : ℕ
  pub fat_cache_dirty : Bool

-- The arrays `file_cluster_buffer` and `dir_cluster_buffer` of file.c and directory.c.
abbrev pub cluster_buffer_size : ℕ
cluster_buffer_size = 32768

-- A cluster does not fit in the arrays: the code writes past their end.
abbrev pub overflows : Fs → Bool
overflows fs = ltb cluster_buffer_size fs.bytes_per_cluster

abbrev pub no_sector : ℕ
no_sector = 0xFFFFFFFF

abbrev pub eoc_min : ℕ
eoc_min = 0x0FFFFFF8

abbrev pub eoc : ℕ
eoc = 0x0FFFFFFF

abbrev pub free_cluster : ℕ
free_cluster = 0

abbrev pub bad_cluster : ℕ
bad_cluster = 0x0FFFFFF7
