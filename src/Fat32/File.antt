-- ===== src/Fat32/File.antt =====
-- drivers/fat32/file.c: the open files. A file descriptor is an `int`; the table has 8 places.
-- `none` of the outer option means that the fuel ran out, or that a cluster does not fit in
-- `file_cluster_buffer` and the code would write past the end of it.
pub mod Calls
pub mod Reading
pub mod Reads
pub mod Rounds
pub mod Stream
use hazle_os.Prelude.{
  ℕ, zero, suc, ◌+◌, ◌-◌, ◌*◌, ◌/◌, ◌%◌, Bool, true, false, ◌&&◌, ◌||◌, not, Option, none, some,
  leb, ltb, ◌==◌, if◌then◌else◌, Buffer, blank, update, take, u32, sub32, ℤ, pos, negsuc, neg,
  signed32,
}
use hazle_os.Device.{BlockDevice}
use hazle_os.Libc.{CString, memcpy}
use hazle_os.Fat32.{Fs, Volume, overflows}
use hazle_os.Fat32.Table.{get_fat_entry, allocate_cluster, extend_chain, sync_fat}
use hazle_os.Fat32.Bpb.{read_cluster, write_cluster, is_eoc}
use hazle_os.Fat32.Directory.Entry.{FileInfo, is_directory}
use hazle_os.Fat32.Directory.Walk.{find_entry, update_entry}
use hazle_os.Fat32.Path.{step_or, parse_path, create_file, delete}

-- `fat32_file_t`
pub record OpenFile : Type 0 where
  pub in_use : Bool
  pub dirty : Bool
  pub first_cluster : ℕ
  pub current_cluster : ℕ
  pub current_sector : ℕ
  pub position : ℕ
  pub size : ℕ
  pub original_size : ℕ
  pub attributes : ℕ
  pub parent_cluster : ℕ
  pub filename : CString

abbrev pub max_open_files : ℕ
max_open_files = 8

-- The volume, and `open_files`.
pub record Files (B : BlockDevice) : Type 0 where
  pub volume : Volume B
  pub open_files : ℕ → OpenFile

-- `fat32_init_files`
pub init_files : (ℕ → OpenFile) → ℕ → OpenFile
init_files files i = if ltb i max_open_files then record (files i) { in_use = false } else files i

-- The loop of `find_free_fd` at `i`, with `n` places left.
pub find_free_from : (ℕ → OpenFile) → (n i : ℕ) → Option ℕ
find_free_from files zero i = none
find_free_from files (suc n) i =
    let rest = find_free_from files n (i + 1) in if not (files i).in_use then some i else rest

pub find_free_fd : (ℕ → OpenFile) → Option ℕ
find_free_fd files = find_free_from files max_open_files 0

-- What `fat32_open` stores for the entry that it found.
pub opened : FileInfo → (dir : ℕ) → CString → OpenFile
opened info dir name = record {
  in_use = true;
  dirty = false;
  first_cluster = info.first_cluster;
  current_cluster = info.first_cluster;
  current_sector = 0;
  position = 0;
  size = info.size;
  original_size = info.size;
  attributes = info.attributes;
  parent_cluster = dir;
  filename = take 63 name;
}

-- The guard of every call: a place of the table that is in use.
unfoldable pub lookup : ℤ → (ℕ → OpenFile) → Option ℕ
lookup (negsuc n) files = none
lookup (pos fd) files = if ltb fd max_open_files && (files fd).in_use then some fd else none

-- What a loop over clusters returns: the `int`, the destination, the file.
pub record Transfer : Type 0 where
  pub result : ℤ
  pub bytes : Buffer
  pub file : OpenFile

-- `min(wanted, bytes_per_cluster - position % bytes_per_cluster)`
pub chunk : Fs → (position wanted : ℕ) → ℕ
chunk fs position wanted =
    let room = sub32 fs.bytes_per_cluster (position % fs.bytes_per_cluster) in
    if ltb room wanted then room else wanted

-- `file->position += n`, and the growth of the file.
pub advance : OpenFile → ℕ → OpenFile
advance f n =
    let position = u32 (f.position + n) in
    if ltb f.size position
    then record f { position = position; size = position; dirty = true }
    else record f { position = position }

module _ {B : BlockDevice} (fs : Fs) where
  -- The loop of `fat32_read`: `done` of `size` bytes are read.
  pub read_loop : (fuel size done : ℕ) → Buffer → OpenFile → Volume B → Option (Transfer × Volume B)
  unfolding chunk
  read_loop zero size done out f v = none
  read_loop (suc fuel) size done out f v = elim (ltb done size && leb 2 f.current_cluster) [
    | false ↦ some (record { result = signed32 done; bytes = out; file = f }, v)
    | true ↦ elim (overflows fs) [
      | true ↦ none
      | false ↦
          let (fat_entry, w) = get_fat_entry fs f.current_cluster v in
          let (got, x) = read_cluster fs f.current_cluster blank w in
          elim got [
            | none ↦ some (
              record {
                result = if ltb 0 done then signed32 done else neg 1;
                bytes = out;
                file = f;
              },
              x,
            )
            | some b ↦
                let count = chunk fs f.position (sub32 size done) in
                let out' = memcpy out done b (f.position % fs.bytes_per_cluster) count in
                let done' = u32 (done + count) in
                let f' = record f { position = u32 (f.position + count) } in
                elim ((f'.position % fs.bytes_per_cluster == 0) && ltb done' size) [
                  | false ↦ read_loop fuel size done' out' f' x
                  | true ↦ elim (is_eoc fat_entry) [
                    | true ↦ some (record { result = signed32 done'; bytes = out'; file = f' }, x)
                    | false ↦
                        read_loop fuel size done' out' (record f' { current_cluster = fat_entry }) x
                  ]
                ]
          ]
    ]
  ]

  -- `fat32_read` on the file's own record, once the descriptor is checked.
  pub read_file : (fuel size : ℕ) → Buffer → OpenFile → Volume B → Option (Transfer × Volume B)
  unfolding read_loop
  read_file fuel size out f v = elim (leb f.size f.position) [
    | true ↦ some (record { result = pos 0; bytes = out; file = f }, v)
    | false ↦
        let remaining = sub32 f.size f.position in
        read_loop fuel (if ltb remaining size then remaining else size) 0 out f v
  ]

  -- The end of a round of `fat32_write`: the next cluster, or `none` for the `break`. The result of
  -- `fat32_extend_chain` is not looked at.
  pub next_cluster : (cluster : ℕ) → Volume B → Option ℕ × Volume B
  next_cluster cluster v =
      let (next, w) = get_fat_entry fs cluster v in
      elim (is_eoc next) [
        | false ↦ (if leb 2 next then some next else none, w)
        | true ↦
            let (new_cluster, x) = allocate_cluster fs w in
            elim (new_cluster == 0) [
              | true ↦ (none, x)
              | false ↦
                  let (extended, y) = extend_chain fs cluster new_cluster x in (some new_cluster, y)
            ]
      ]

  -- The loop of `fat32_write`: `done` of `size` bytes are written.
  pub write_loop :
      (fuel size done : ℕ) (input : Buffer)
      → OpenFile
      → Volume B
      → Option ((ℤ × OpenFile) × Volume B)
  unfolding chunk next_cluster advance
  write_loop zero size done input f v = none
  write_loop (suc fuel) size done input f v = elim (ltb done size && leb 2 f.current_cluster) [
    | false ↦ some ((signed32 done, f), v)
    | true ↦ elim (overflows fs) [
      | true ↦ none
      | false ↦
          let (got, w) = read_cluster fs f.current_cluster blank v in
          elim got [
            | none ↦ some ((signed32 done, f), w)
            | some b ↦
                let count = chunk fs f.position (sub32 size done) in
                let b' = memcpy b (f.position % fs.bytes_per_cluster) input done count in
                let (written, x) = write_cluster fs f.current_cluster b' w in
                elim written [
                  | false ↦ some ((signed32 done, f), x)
                  | true ↦
                      let done' = u32 (done + count) in
                      let f' = advance f count in
                      elim (ltb done' size) [
                        | false ↦ write_loop fuel size done' input f' x
                        | true ↦
                            let (next, y) = next_cluster f.current_cluster x in
                            elim next [
                              | none ↦ some ((signed32 done', f'), y)
                              | some c ↦
                                  write_loop fuel size done' input
                                    (record f' { current_cluster = c }) y
                            ]
                      ]
                ]
          ]
    ]
  ]

  -- `fat32_write` on the file's own record: an empty file gets its first cluster.
  pub write_file :
      (fuel size : ℕ) (input : Buffer) → OpenFile → Volume B → Option ((ℤ × OpenFile) × Volume B)
  unfolding write_loop
  write_file fuel size input f v = elim (size == 0) [
    | true ↦ some ((pos 0, f), v)
    | false ↦ elim (f.first_cluster == 0) [
      | false ↦ write_loop fuel size 0 input f v
      | true ↦
          let (new_cluster, w) = allocate_cluster fs v in
          elim (new_cluster == 0) [
            | true ↦ some ((neg 1, f), w)
            | false ↦
                write_loop fuel size 0 input
                  (record f {
                    first_cluster = new_cluster;
                    current_cluster = new_cluster;
                    dirty = true;
                  })
                  w
          ]
    ]
  ]

  -- The loop of `fat32_seek`, with `n` clusters to skip.
  pub skip_clusters : (n cluster : ℕ) → Volume B → ℕ × Volume B
  skip_clusters zero cluster v = (cluster, v)
  skip_clusters (suc n) cluster v = elim (ltb cluster 2 || is_eoc cluster) [
    | true ↦ (cluster, v)
    | false ↦ let (next, w) = get_fat_entry fs cluster v in skip_clusters n next w
  ]

  pub seek_file : (position : ℕ) → OpenFile → Volume B → OpenFile × Volume B
  unfolding skip_clusters
  seek_file position f v =
      let (cluster, w) = skip_clusters (position / fs.bytes_per_cluster) f.first_cluster v in
      (record f { position = position; current_cluster = cluster }, w)
