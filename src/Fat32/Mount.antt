-- ===== src/Fat32/Mount.antt =====
-- drivers/fat32/mount.c: mounting, and the current directory. `none` of the outer option means that
-- the fuel of a directory walk ran out, or that a cluster does not fit in the array of the walk.
use hazle_os.Prelude.{
  ℕ, ◌+◌, ◌*◌, Bool, true, false, not, List, [], ◌∷◌, ◌++◌, Option, none, some, ltb, ◌==◌,
  if◌then◌else◌, take, u32,
}
use hazle_os.Device.{BlockDevice}
use hazle_os.Libc.{CString, head_char, strcmp, is_zero, strlen}
use hazle_os.Fat32.{Fs, Volume}
use hazle_os.Fat32.Table.{count_free_clusters, sync_fat, invalidate_fat_cache}
use hazle_os.Fat32.Bpb.{refused, divide_error, parsed, parse_bpb, root_path}
use hazle_os.Fat32.Directory.Entry.{is_directory}
use hazle_os.Fat32.Directory.Walk.{find_entry}
use hazle_os.Fat32.Path.{segments}
use hazle_os.Fat32.File.{OpenFile, init_files}

-- `fs` after `memset(&fs, 0, sizeof(fat32_fs_t))`
abbrev pub cleared_fs : Fs
cleared_fs = record {
  mounted = false;
  bytes_per_sector = 0;
  sectors_per_cluster = 0;
  bytes_per_cluster = 0;
  reserved_sectors = 0;
  num_fats = 0;
  sectors_per_fat = 0;
  root_cluster = 0;
  first_fat_sector = 0;
  first_data_sector = 0;
  total_clusters = 0;
  total_sectors = 0;
  current_directory = 0;
  current_path = [];
}

pub init : (ℕ → OpenFile) → Fs × (ℕ → OpenFile)
init files = (cleared_fs, init_files files)

-- The path before its last slash, which is looked for from the end down to index 1.
pub parent_path : CString → CString
parent_path [] = root_path
parent_path (c ∷ s) = elim (cut s) [ none ↦ root_path | some before ↦ c ∷ before ]
  where
    cut : CString → Option CString
    cut [] = none
    cut (d ∷ t) = elim (cut t) [
      | some before ↦ some (d ∷ before)
      | none ↦ if d == b'/' then some [] else none
    ]

-- `current_path` with one segment more, if the buffer of 256 holds it.
pub append_segment : (path segment : CString) → CString
append_segment path segment =
    if is_zero (strcmp path root_path)
    then (if ltb (strlen segment + 2) 256 then b'/' ∷ segment else path)
    else if ltb (strlen path + strlen segment + 2) 256
    then path ++ b'/' ∷ segment
    else path

-- A cluster number of 0 stands for the root.
abbrev pub or_root : Fs → ℕ → ℕ
or_root fs cluster = if cluster == 0 then fs.root_cluster else cluster

-- The start of the walk: an absolute path clears `current_path` first.
abbrev pub start : CString → Fs → ℕ × Fs
start path fs =
    if head_char path == b'/'
    then (fs.root_cluster, record fs { current_path = [] })
    else (fs.current_directory, fs)

abbrev pub arrive : Fs → ℕ → Fs
arrive fs cluster = record fs {
  current_directory = cluster;
  current_path = if strlen fs.current_path == 0 then root_path else fs.current_path;
}

module _ {B : BlockDevice} where
  -- `ready` is `block_is_available() || block_init()`. A trap of the division is `none`.
  pub mount : (ready : Bool) → Fs → Volume B → Option ((Bool × Fs) × Volume B)
  mount ready fs v = elim ready [
    | false ↦ some ((false, fs), v)
    | true ↦
        let (outcome, w) = parse_bpb fs.mounted v in
        elim outcome [
          | refused ↦ some ((false, fs), w)
          | divide_error ↦ none
          | parsed p ↦ some ((true, record p { mounted = true }), w)
        ]
  ]

  pub unmount : Fs → Volume B → Fs × Volume B
  unmount fs v =
      if fs.mounted
      then (let w = (sync_fat fs v).1 in
          (
            record fs { mounted = false },
            invalidate_fat_cache (record fs { mounted = false })
                (record w { dev = (BlockDevice.block_flush B w.dev).1 }),
          ))
      else (fs, v)

  -- The loop of `fat32_change_dir` over the segments. The path changes with each of them, the
  -- current directory not yet.
  pub descend :
      (fuel : ℕ)
      → List CString
      → (cluster : ℕ) → Fs
      → Volume B
      → Option ((Option ℕ × Fs) × Volume B)
  unfolding append_segment
  descend fuel [] cluster fs v = some ((some cluster, fs), v)
  descend fuel (segment ∷ rest) cluster fs v = elim (find_entry fs fuel cluster segment v) [
    | none ↦ none
    | some (none, w) ↦ some ((none, fs), w)
    | some (some info, w) ↦ elim (is_directory info.attributes) [
      | false ↦ some ((none, fs), w)
      | true ↦
          descend fuel rest (or_root fs info.first_cluster)
            (record fs { current_path = append_segment fs.current_path segment }) w
    ]
  ]

  -- `cd ..`
  pub ascend : (fuel : ℕ) → Fs → Volume B → Option ((Bool × Fs) × Volume B)
  unfolding parent_path
  ascend fuel fs v = elim (find_entry fs fuel fs.current_directory (b'.' ∷ b'.' ∷ []) v) [
    | none ↦ none
    | some (none, w) ↦ some ((false, fs), w)
    | some (some info, w) ↦ some (
      (
        true,
        record fs {
          current_directory = or_root fs info.first_cluster;
          current_path = parent_path fs.current_path;
        },
      ),
      w,
    )
  ]

  pub walk_to : (fuel : ℕ) → CString → Fs → Volume B → Option ((Bool × Fs) × Volume B)
  unfolding descend
  walk_to fuel path fs v =
      elim (descend fuel (segments (take 255 path)) (start path fs).0 (start path fs).1 v) [
        | none ↦ none
        | some ((none, fs'), w) ↦ some ((false, fs'), w)
        | some ((some cluster, fs'), w) ↦ some ((true, arrive fs' cluster), w)
      ]

  pub change_dir : (fuel : ℕ) → CString → Fs → Volume B → Option ((Bool × Fs) × Volume B)
  unfolding ascend walk_to
  change_dir fuel path fs v =
      if not fs.mounted
      then some ((false, fs), v)
      else if is_zero (strcmp path root_path)
      then some
          ((true, record fs { current_directory = fs.root_cluster; current_path = root_path }), v)
      else if is_zero (strcmp path (b'.' ∷ b'.' ∷ []))
      then ascend fuel fs v
      else if is_zero (strcmp path (b'.' ∷ []))
      then some ((true, fs), v)
      else walk_to fuel path fs v

  pub free_space : Fs → Volume B → ℕ × Volume B
  free_space fs v =
      let (clusters, w) = count_free_clusters fs v in (u32 (clusters * fs.bytes_per_cluster), w)

pub total_space : Fs → ℕ
total_space fs = u32 (fs.total_clusters * fs.bytes_per_cluster)
