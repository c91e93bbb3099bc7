-- ===== src/Fat32/Directory/Listing.antt =====
-- drivers/fat32/directory.c: `fat32_read_dir`, which lists a directory and puts long names
-- together. The long name is collected in an array of 256 bytes; the code writes to places outside
-- of it, too, if the order of an entry says so. Such a write is left out here and noted.
pub mod Visible
pub mod Chains
pub mod Overrun
pub mod Tests
use hazle_os.Prelude.{
  ℕ, zero, suc, ◌+◌, ◌-◌, ◌*◌, ◌/◌, ◌%◌, ◌^◌, Bool, true, false, ◌&&◌, ◌||◌, List, [], ◌∷◌, ◌++◌,
  Option, none, some, ltb, leb, ◌==◌, if◌then◌else◌, Buffer, blank, update, get16, has_bit, length,
  u8,
}
use hazle_os.Device.{BlockDevice}
use hazle_os.Libc.{CString, string_in, memset}
use hazle_os.Fat32.{Fs, Volume, overflows}
use hazle_os.Fat32.Table.{get_fat_entry}
use hazle_os.Fat32.Bpb.{read_cluster, is_eoc}
use hazle_os.Fat32.Directory.Entry.{
  FileInfo, info_at, attributes, attr_lfn, entry_end, entry_free, is_volume_id,
}
use hazle_os.Fat32.Directory.Walk.{entries_per_cluster}

-- `lfn_checksum`, which no other function calls. `short_name` has 11 bytes.
pub lfn_checksum : (n i : ℕ) (short_name : Buffer) (sum : ℕ) → ℕ
lfn_checksum zero i short_name sum = sum
lfn_checksum (suc n) i short_name sum =
    lfn_checksum n (i + 1) short_name
      (u8 ((if has_bit sum 0 then 0x80 else 0) + sum / 2 + short_name i))

-- The long name as far as it is known. `place` is the index plus 13, since the code counts from
-- -13 on.
pub record LongName : Type 0 where
  pub lfn_buffer : Buffer
  pub has_lfn : Bool
  pub overrun : Bool

-- `dest[(*pos)++] = c`
pub put_char : (place c : ℕ) → LongName → LongName
put_char place c l =
    if leb 13 place && ltb place (13 + 256)
    then record l { lfn_buffer = update l.lfn_buffer (place - 13) c }
    else record l { overrun = true }

-- One loop of `extract_lfn_chars`: at most `n` characters of two bytes each, from offset `o` on.
pub extract_part : (n : ℕ) (b : Buffer) (o place : ℕ) → LongName → ℕ × LongName
unfolding put_char
extract_part zero b o place l = (place, l)
extract_part (suc n) b o place l = elim ((get16 b o == 0xFFFF) || (get16 b o == 0)) [
  | true ↦ (place, l)
  | false ↦ extract_part n b (o + 2) (place + 1) (put_char place (get16 b o % 2 ^ 8) l)
]

-- `extract_lfn_chars` of the entry at offset `o`.
pub extract_lfn_chars : Buffer → (o place : ℕ) → LongName → LongName
unfolding extract_part
extract_lfn_chars b o place l =
    let (place', l') = extract_part 5 b (o + 1) place l in
    let (place'', l'') = extract_part 6 b (o + 14) place' l' in
    (extract_part 2 b (o + 28) place'' l'').1

-- The bits of `lfn->order`.
abbrev pub order : Buffer → ℕ → ℕ
order b o = b o % 2 ^ 6

-- An entry with a part of a long name. `lfn_index` is set and never read.
pub long_entry : Buffer → ℕ → LongName → LongName
unfolding extract_lfn_chars
long_entry b o l =
    let begun =
      if has_bit (b o) 6
      then record l { lfn_buffer = memset l.lfn_buffer 0 0 256; has_lfn = true }
      else l in
    if begun.has_lfn then extract_lfn_chars b o (order b o * 13) begun else begun

-- An entry of the listing: the long name, if there is one, in place of the short one.
pub listed : Buffer → ℕ → LongName → FileInfo
listed b o l =
    if l.has_lfn then record (info_at b o) { name = string_in 255 0 l.lfn_buffer } else info_at b o

-- `lfn_buffer`, `has_lfn`, and `entries` up to `*count`.
pub record Progress : Type 0 where
  pub long_name : LongName
  pub entries : List FileInfo

-- One entry that neither ends the directory nor is free.
pub list_entry : Buffer → ℕ → Progress → Progress
unfolding long_entry listed
list_entry b o p =
    if attributes b o == attr_lfn
    then record p { long_name = long_entry b o p.long_name }
    else if is_volume_id (attributes b o)
    then record p { long_name = record p.long_name { has_lfn = false } }
    else record {
      long_name = record p.long_name { has_lfn = false };
      entries = p.entries ++ listed b o p.long_name ∷ [];
    }

-- The loop over the entries of one cluster, and whether it met the end of the directory.
pub list_cluster : (max n i : ℕ) → Buffer → Progress → Bool × Progress
unfolding list_entry
list_cluster max zero i b p = (false, p)
list_cluster max (suc n) i b p = elim (ltb (length p.entries) max) [
  | false ↦ (false, p)
  | true ↦ elim (b (i * 32) == entry_end) [
    | true ↦ (true, p)
    | false ↦ elim (b (i * 32) == entry_free) [
      | true ↦ list_cluster max n (i + 1) b p
      | false ↦ list_cluster max n (i + 1) b (list_entry b (i * 32) p)
    ]
  ]
]

module _ {B : BlockDevice} (fs : Fs) where
  -- `while (current_cluster >= 2)`; `none` means that the fuel ran out, or that a
  -- cluster does not fit in `dir_cluster_buffer` and the code would write past the end of it.
  pub list_chain :
      (max fuel cluster : ℕ) → Progress → Volume B → Option ((Bool × Progress) × Volume B)
  unfolding list_cluster
  list_chain max zero cluster p v = none
  list_chain max (suc fuel) cluster p v = elim (ltb cluster 2) [
    | true ↦ some ((true, p), v)
    | false ↦ elim (overflows fs) [
      | true ↦ none
      | false ↦
          let (got, w) = read_cluster fs cluster blank v in
          elim got [
            | none ↦ some ((false, p), w)
            | some b ↦
                let (at_end, q) = list_cluster max (entries_per_cluster fs) 0 b p in
                elim at_end [
                  | true ↦ some ((true, q), w)
                  | false ↦
                      let (next, x) = get_fat_entry fs cluster w in
                      elim (is_eoc next) [
                        | true ↦ some ((true, q), x)
                        | false ↦ list_chain max fuel next q x
                      ]
                ]
          ]
    ]
  ]

  -- `fat32_read_dir`: its success and the entries, of which there are `*count`.
  pub read_dir : (fuel cluster max_entries : ℕ) → Volume B → Option ((Bool × Progress) × Volume B)
  unfolding list_chain
  read_dir fuel cluster max_entries v =
      list_chain max_entries fuel cluster
        (record {
          long_name = record { lfn_buffer = blank; has_lfn = false; overrun = false };
          entries = [];
        })
        v
