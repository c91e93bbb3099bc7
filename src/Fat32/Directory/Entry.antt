-- ===== src/Fat32/Directory/Entry.antt =====
-- drivers/fat32/directory.c: short names, the 32-byte entries, and the search within a cluster.
pub mod Compose
pub mod Names
pub mod Search
pub mod Tests
use hazle_os.Prelude.{
  ℕ, zero, suc, ◌+◌, ◌-◌, ◌*◌, ◌/◌, ◌%◌, ◌^◌, ◌<◌, Bool, true, false, not, ◌&&◌, ◌||◌, List, [],
  ◌∷◌, ◌++◌, map, Option, none, some, leb, ltb, ◌==◌, if◌then◌else◌, Buffer, blank, u32, has_bit,
  get16, get32, set16, set32, update, take, length, replicate,
}
use hazle_os.Libc.{CString, strlen, strcmp, is_zero, memset}

abbrev pub entry_end : ℕ
entry_end = 0x00

abbrev pub entry_free : ℕ
entry_free = 0xE5

abbrev pub attr_directory : ℕ
attr_directory = 0x10

abbrev pub attr_archive : ℕ
attr_archive = 0x20

abbrev pub attr_lfn : ℕ
attr_lfn = 0x0F

-- `attributes & FAT32_ATTR_DIRECTORY`
abbrev pub is_directory : ℕ → Bool
is_directory attributes = has_bit attributes 4

-- `attributes & FAT32_ATTR_VOLUME_ID`
abbrev pub is_volume_id : ℕ → Bool
is_volume_id attributes = has_bit attributes 3

-- The `n` bytes of a buffer from `at` on.
pub bytes_from : Buffer → (at n : ℕ) → List ℕ
bytes_from b at zero = []
bytes_from b at (suc n) = b at ∷ bytes_from b (at + 1) n

-- `for (i = 0; i < n && field[i] != ' '; i++)`
pub until_space : List ℕ → CString
until_space [] = []
until_space (c ∷ s) = if c == b' ' then [] else c ∷ until_space s

-- The C string that an array of characters holds: a zero byte ends it.
pub c_string : List ℕ → CString
c_string [] = []
c_string (c ∷ s) = if c == 0 then [] else c ∷ c_string s

-- The dot and the extension, if `short_name[8] != ' '`.
pub dotted : List ℕ → CString
dotted [] = []
dotted (c ∷ s) = if c == b' ' then [] else b'.' ∷ until_space (c ∷ s)

-- `short_name_to_string`, on the 8 bytes of the name and the 3 of the extension.
pub short_name_to_string : (name ext : List ℕ) → CString
short_name_to_string name ext = c_string (until_space name ++ dotted ext)

-- `if (c >= 'a' && c <= 'z') c -= 32;`
pub to_upper : ℕ → ℕ
to_upper c = if leb b'a' c && leb c b'z' then c - 32 else c

-- The text before and behind its last dot.
pub split_last_dot : CString → Option (CString × CString)
split_last_dot [] = none
split_last_dot (c ∷ s) = elim (split_last_dot s) [
  | some (before, behind) ↦ some (c ∷ before, behind)
  | none ↦ if c == b'.' then some ([], s) else none
]

-- `n` bytes of a short name: the text in capitals, cut or filled with spaces.
pub field : ℕ → CString → List ℕ
field zero s = []
field (suc n) [] = b' ' ∷ field n []
field (suc n) (c ∷ s) = to_upper c ∷ field n s

-- `string_to_short_name`: the 8 bytes of the name and the 3 of the extension.
pub string_to_short_name : CString → List ℕ × List ℕ
string_to_short_name s = elim (split_last_dot s) [
  | some (before, behind) ↦ (field 8 before, field 3 behind)
  | none ↦ (field 8 s, field 3 [])
]

-- The fields of `fat32_dir_entry_t` at offset `o`.
pub entry_name : Buffer → ℕ → CString
entry_name b o = short_name_to_string (bytes_from b o 8) (bytes_from b (o + 8) 3)

abbrev pub attributes : Buffer → ℕ → ℕ
attributes b o = b (o + 11)

abbrev pub first_cluster : Buffer → ℕ → ℕ
first_cluster b o = get16 b (o + 20) * 2 ^ 16 + get16 b (o + 26)

-- `fat32_file_info_t`
pub record FileInfo : Type 0 where
  pub name : CString
  pub size : ℕ
  pub attributes : ℕ
  pub first_cluster : ℕ
  pub creation_date : ℕ
  pub creation_time : ℕ
  pub modification_date : ℕ
  pub modification_time : ℕ

pub info_at : Buffer → ℕ → FileInfo
info_at b o = record {
  name = entry_name b o;
  size = get32 b (o + 28);
  attributes = attributes b o;
  first_cluster = first_cluster b o;
  creation_date = get16 b (o + 16);
  creation_time = get16 b (o + 14);
  modification_date = get16 b (o + 24);
  modification_time = get16 b (o + 22);
}

pub set_first_cluster : Buffer → ℕ → ℕ → Buffer
set_first_cluster b o cluster =
    set16 (set16 b (o + 20) (cluster / 2 ^ 16 % 2 ^ 16)) (o + 26) (cluster % 2 ^ 16)

pub set_size : Buffer → ℕ → ℕ → Buffer
set_size b o size = set32 b (o + 28) size

-- The bytes of a list, put into a buffer from `at` on.
pub put_bytes : Buffer → ℕ → List ℕ → Buffer
put_bytes b at [] j = b j
put_bytes b at (c ∷ s) j = if j == at then c else put_bytes b (at + 1) s j

-- The entry that `fat32_create_entry` composes.
pub compose_entry : Buffer → ℕ → CString → (attributes cluster size : ℕ) → Buffer
compose_entry b o name attrs cluster size =
    let (short, ext) = string_to_short_name name in
    let named = put_bytes (put_bytes (memset b o 0 32) o short) (o + 8) ext in
    let placed = set_size (set_first_cluster (update named (o + 11) attrs) o cluster) o size in
    set16
      (set16 (set16 (set16 (set16 placed (o + 16) 0x4E21) (o + 14) 0) (o + 24) 0x4E21) (o + 22) 0)
      (o + 18) 0x4E21

-- What the loop over the entries of one cluster comes to.
pub data Scan : Type 0 where
  ended missing : Scan
  at : ℕ → Scan

-- The search for a name among the `n` entries from index `i` on; `skipped` is the test on the
-- attributes.
pub scan_name : (skipped : ℕ → Bool) → CString → (n i : ℕ) → Buffer → Scan
scan_name skipped name zero i b = missing
scan_name skipped name (suc n) i b =
    let rest = scan_name skipped name n (i + 1) b in
    if b (i * 32) == entry_end
    then ended
    else if (b (i * 32) == entry_free) || skipped (attributes b (i * 32))
    then rest
    else if is_zero (strcmp name (map to_upper (entry_name b (i * 32))))
    then at i
    else rest

pub scan_free : (n i : ℕ) → Buffer → Scan
scan_free zero i b = missing
scan_free (suc n) i b =
    let rest = scan_free n (i + 1) b in
    if (b (i * 32) == entry_end) || (b (i * 32) == entry_free) then at i else rest

-- `fat32_find_entry` skips long-name entries and volume labels.
unfoldable pub skipped_by_find : ℕ → Bool
skipped_by_find attrs = (attrs == attr_lfn) || is_volume_id attrs

-- `fat32_delete_entry` and the updates skip long-name entries only.
pub skipped_by_update : ℕ → Bool
skipped_by_update attrs = attrs == attr_lfn

-- Where a search ended: the cluster, the index of the entry, and the cluster's bytes.
pub record Slot : Type 0 where
  pub cluster : ℕ
  pub index : ℕ
  pub bytes : Buffer
