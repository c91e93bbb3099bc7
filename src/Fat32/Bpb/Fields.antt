-- ===== src/Fat32/Bpb/Fields.antt =====
-- The fields of `fat32_bpb_t` that are read, at their offsets in the packed structure.
use hazle_os.Prelude.{ℕ, Buffer, get16, get32}

abbrev pub bytes_per_sector : Buffer → ℕ
bytes_per_sector b = get16 b 11

abbrev pub sectors_per_cluster : Buffer → ℕ
sectors_per_cluster b = b 13

abbrev pub reserved_sectors : Buffer → ℕ
reserved_sectors b = get16 b 14

abbrev pub num_fats : Buffer → ℕ
num_fats b = b 16

abbrev pub total_sectors_16 : Buffer → ℕ
total_sectors_16 b = get16 b 19

abbrev pub sectors_per_fat_16 : Buffer → ℕ
sectors_per_fat_16 b = get16 b 22

abbrev pub total_sectors_32 : Buffer → ℕ
total_sectors_32 b = get32 b 32

abbrev pub sectors_per_fat_32 : Buffer → ℕ
sectors_per_fat_32 b = get32 b 36

abbrev pub root_cluster : Buffer → ℕ
root_cluster b = get32 b 44
