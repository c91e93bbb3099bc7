-- ===== src/Fat32/File/Calls.antt =====
-- drivers/fat32/file.c: the calls on file descriptors, and `fat32_copy` over them.
pub mod Descriptors
pub mod Checked
pub mod Opened
pub mod Tests
use hazle_os.Prelude.{
  ℕ, zero, suc, Bool, true, false, Option, none, some, ◌==◌, if◌then◌else◌, Buffer, blank, update,
  ℤ, pos, negsuc, neg,
}
use hazle_os.Device.{BlockDevice}
use hazle_os.Libc.{CString}
use hazle_os.Fat32.{Fs, Volume}
use hazle_os.Fat32.Table.{sync_fat}
use hazle_os.Fat32.Directory.Entry.{is_directory}
use hazle_os.Fat32.Directory.Walk.{find_entry, update_entry}
use hazle_os.Fat32.Path.{parse_path, create_file, delete}
use hazle_os.Fat32.File.{
  OpenFile, Files, find_free_fd, opened, lookup, read_file, write_file, seek_file,
}

-- `int == int`
abbrev pub same_int : ℤ → ℤ → Bool
same_int (pos m) (pos n) = m == n
same_int (negsuc m) (negsuc n) = m == n
same_int (pos m) (negsuc n) = false
same_int (negsuc m) (pos n) = false

module _ {B : BlockDevice} (fs : Fs) where
  abbrev with_volume : Files B → Volume B → Files B
  with_volume s v = record s { volume = v }

  abbrev with_file : Files B → ℕ → OpenFile → Volume B → Files B
  with_file s fd f v = record { volume = v; open_files = update s.open_files fd f }

  -- A step on the volume, and then one on the whole state.
  abbrev on_volume {ℓ} :
      {A : Type ℓ} {C : Type 0}
      → Files B
      → Option (Option A × Volume B)
      → C
      → (A → Files B → Option (C × Files B))
      → Option (C × Files B)
  on_volume s none failure next = none
  on_volume s (some (none, v)) failure next = some (failure, with_volume s v)
  on_volume s (some (some a, v)) failure next = next a (with_volume s v)

  pub open_file : (fuel : ℕ) → CString → Files B → Option (ℤ × Files B)
  open_file fuel path s = elim (find_free_fd s.open_files) [
    | none ↦ some (neg 1, s)
    | some fd ↦ on_volume s (parse_path fs fuel path s.volume) (neg 1) (λ at t.
        on_volume t (find_entry fs fuel at.0 at.1 t.volume) (neg 1) (λ info u.
          if is_directory info.attributes
          then some (neg 1, u)
          else some (pos fd, with_file u fd (opened info at.0 at.1) u.volume)))
  ]

  pub read : (fuel : ℕ) (fd : ℤ) → Buffer → (size : ℕ) → Files B → Option ((ℤ × Buffer) × Files B)
  read fuel fd buffer size s = elim (lookup fd s.open_files) [
    | none ↦ some ((neg 1, buffer), s)
    | some i ↦ elim (read_file fs fuel size buffer (s.open_files i) s.volume) [
      | none ↦ none
      | some (t, v) ↦ some ((t.result, t.bytes), with_file s i t.file v)
    ]
  ]

  pub write : (fuel : ℕ) (fd : ℤ) → Buffer → (size : ℕ) → Files B → Option (ℤ × Files B)
  write fuel fd buffer size s = elim (lookup fd s.open_files) [
    | none ↦ some (neg 1, s)
    | some i ↦ elim (write_file fs fuel size buffer (s.open_files i) s.volume) [
      | none ↦ none
      | some ((result, f), v) ↦ some (result, with_file s i f v)
    ]
  ]

  -- `if (file->dirty) fat32_update_entry(...)`; the result is not looked at.
  pub store_size : (fuel : ℕ) → OpenFile → Volume B → Option (Bool × Volume B)
  store_size fuel f v = elim f.dirty [
    | true ↦ update_entry fs fuel f.parent_cluster f.filename f.size f.first_cluster v
    | false ↦ some (true, v)
  ]

  -- `fat32_sync_fat(); block_flush();`
  abbrev pub sync : Volume B → Volume B
  sync v = let w = (sync_fat fs v).1 in record w { dev = (BlockDevice.block_flush B w.dev).1 }

  pub close : (fuel : ℕ) (fd : ℤ) → Files B → Option (Files B)
  unfolding store_size
  close fuel fd s = elim (lookup fd s.open_files) [
    | none ↦ some s
    | some i ↦ elim (store_size fuel (s.open_files i) s.volume) [
      | none ↦ none
      | some (stored, v) ↦
          some (with_file s i (record (s.open_files i) { in_use = false }) (sync v))
    ]
  ]

  pub seek : (fd : ℤ) (position : ℕ) → Files B → Bool × Files B
  seek fd position s = elim (lookup fd s.open_files) [
    | none ↦ (false, s)
    | some i ↦
        let (f, v) = seek_file fs position (s.open_files i) s.volume in (true, with_file s i f v)
  ]

  -- The loop of `fat32_copy`: 512 bytes at a time. `false` is a write that fell short.
  pub copy_loop : (rounds fuel : ℕ) (src_fd dst_fd : ℤ) → Files B → Option (Bool × Files B)
  unfolding read write
  copy_loop zero fuel src_fd dst_fd s = none
  copy_loop (suc rounds) fuel src_fd dst_fd s = elim (read fuel src_fd blank 512 s) [
    | none ↦ none
    | some ((negsuc n, b), t) ↦ some (true, t)
    | some ((pos zero, b), t) ↦ some (true, t)
    | some ((pos (suc n), b), t) ↦ elim (write fuel dst_fd b (suc n) t) [
      | none ↦ none
      | some (result, u) ↦ elim (same_int result (pos (suc n))) [
        | true ↦ copy_loop rounds fuel src_fd dst_fd u
        | false ↦ some (false, u)
      ]
    ]
  ]

  -- Closes the destination, if it is open, and removes it: the error paths of `fat32_copy`.
  pub remove_copy : (fuel : ℕ) → CString → Files B → Option (Bool × Files B)
  remove_copy fuel dst_path s = elim (delete fs fuel dst_path s.volume) [
    | none ↦ none
    | some (deleted, v) ↦ some (false, with_volume s v)
  ]

  pub close_both : (fuel : ℕ) (src_fd dst_fd : ℤ) → Files B → Option (Files B)
  unfolding close
  close_both fuel src_fd dst_fd s = elim (close fuel src_fd s) [
    | none ↦ none
    | some t ↦ close fuel dst_fd t
  ]

  -- `fat32_copy`, once both files are open.
  pub copy_open :
      (rounds fuel : ℕ) (src_fd dst_fd : ℤ) → CString → Files B → Option (Bool × Files B)
  unfolding copy_loop close_both remove_copy
  copy_open rounds fuel src_fd dst_fd dst_path s = elim (copy_loop rounds fuel src_fd dst_fd s) [
    | none ↦ none
    | some (copied, t) ↦ elim (close_both fuel src_fd dst_fd t) [
      | none ↦ none
      | some u ↦ elim copied [ true ↦ some (true, u) | false ↦ remove_copy fuel dst_path u ]
    ]
  ]

  pub copy : (rounds fuel : ℕ) (src_path dst_path : CString) → Files B → Option (Bool × Files B)
  unfolding open_file close copy_open remove_copy
  copy rounds fuel src_path dst_path s = elim (open_file fuel src_path s) [
    | none ↦ none
    | some (negsuc n, t) ↦ some (false, t)
    | some (pos src, t) ↦ elim (create_file fs fuel dst_path t.volume) [
      | none ↦ none
      | some (false, v) ↦ elim (close fuel (pos src) (with_volume t v)) [
        | none ↦ none
        | some u ↦ some (false, u)
      ]
      | some (true, v) ↦ elim (open_file fuel dst_path (with_volume t v)) [
        | none ↦ none
        | some (negsuc n, u) ↦ elim (close fuel (pos src) u) [
          | none ↦ none
          | some x ↦ remove_copy fuel dst_path x
        ]
        | some (pos dst, u) ↦ copy_open rounds fuel (pos src) (pos dst) dst_path u
      ]
    ]
  ]

-- `fat32_tell` and `fat32_size`: 0 for a descriptor that is not in use.
pub tell : ℤ → (ℕ → OpenFile) → ℕ
tell fd files = elim (lookup fd files) [ none ↦ 0 | some i ↦ (files i).position ]

pub size : ℤ → (ℕ → OpenFile) → ℕ
size fd files = elim (lookup fd files) [ none ↦ 0 | some i ↦ (files i).size ]
