-- ===== src/Kernel/Syscall/Files.antt =====
-- kernel/syscall.c: the calls on files and directories. `none` means that the fuel ran out.
use hazle_os.Prelude.{
  ℕ, ◌+◌, ◌-◌, ◌^◌, Bool, List, [], ◌∷◌, Option, none, some, ◌==◌, if◌then◌else◌, Buffer, update,
  set16, set32, sub32, u32, ℤ, pos, neg, length,
}
use hazle_os.Device.{BlockDevice}
use hazle_os.Ports.{Ports}
use hazle_os.Libc.{strcpy, strncpy}
use hazle_os.Fat32.{Volume}
use hazle_os.Fat32.Path.{create_file, create_dir, delete, rename}
use hazle_os.Fat32.Mount.{change_dir, total_space, free_space}
use hazle_os.Fat32.File.Calls.{open_file, read, write, close, copy}
use hazle_os.Fat32.Directory.Entry.{FileInfo}
use hazle_os.Fat32.Directory.Listing.{read_dir}
use hazle_os.Kernel.System.{System, at_address, string_at, put_back, with_files, with_volume}

-- `fat32_file_info_t` at an address: 273 bytes, the name first. What lies behind the end of the
-- name is left as it is.
pub put_info : Buffer → (a : ℕ) → FileInfo → Buffer
put_info m a info =
    let named = strcpy m a info.name in
    let sized = update (set32 named (a + 256) info.size) (a + 260) info.attributes in
    let placed = set32 sized (a + 261) info.first_cluster in
    let created = set16 (set16 placed (a + 265) info.creation_date) (a + 267) info.creation_time in
    set16 (set16 created (a + 269) info.modification_date) (a + 271) info.modification_time

pub put_infos : Buffer → (a : ℕ) → List FileInfo → Buffer
unfolding put_info
put_infos m a [] = m
put_infos m a (info ∷ rest) = put_infos (put_info m a info) (a + 273) rest

-- `if (ptr) *ptr = value;`
abbrev pub put_if : Buffer → (ptr value : ℕ) → Buffer
put_if m ptr value = if ptr == 0 then m else set32 m ptr value

-- `ok ? 0 : -1`
abbrev pub status : Bool → ℤ
status ok = if ok then pos 0 else neg 1

module _ {B : BlockDevice} {P : Ports} where
  -- A call on the volume whose success is the result.
  abbrev pub on_volume : System B P → Option (Bool × Volume B) → Option (ℤ × System B P)
  on_volume s none = none
  on_volume s (some (ok, v)) = some (status ok, with_volume s v)

  pub sys_open : (fuel path : ℕ) → System B P → Option (ℤ × System B P)
  sys_open fuel path s = elim (open_file s.fs fuel (string_at s.memory path) s.files) [
    | none ↦ none
    | some (fd, files) ↦ some (fd, with_files s files)
  ]

  unfoldable pub sys_close : (fuel : ℕ) (fd : ℤ) → System B P → Option (ℤ × System B P)
  sys_close fuel fd s = elim (close s.fs fuel fd s.files) [
    | none ↦ none
    | some files ↦ some (pos 0, with_files s files)
  ]

  -- `fat32_read` and `fat32_write` with a buffer in memory.
  unfoldable pub read_memory :
      (fuel : ℕ) (fd : ℤ) (buf size : ℕ) → System B P → Option (ℤ × System B P)
  read_memory fuel fd buf size s = elim (read s.fs fuel fd (at_address s.memory buf) size s.files) [
    | none ↦ none
    | some ((result, b), files) ↦
        some (result, record s { files = files; memory = put_back s.memory buf size b })
  ]

  unfoldable pub write_memory :
      (fuel : ℕ) (fd : ℤ) (buf size : ℕ) → System B P → Option (ℤ × System B P)
  write_memory fuel fd buf size s =
      elim (write s.fs fuel fd (at_address s.memory buf) size s.files) [
        | none ↦ none
        | some (result, files) ↦ some (result, with_files s files)
      ]

  -- `cluster` 0 is the current directory.
  pub sys_readdir : (fuel cluster entries : ℕ) (max : ℕ) → System B P → Option (ℤ × System B P)
  unfolding put_infos
  sys_readdir fuel cluster entries max s =
      let dir = if cluster == 0 then s.fs.current_directory else cluster in
      elim (read_dir s.fs fuel dir max s.files.volume) [
        | none ↦ none
        | some ((ok, p), v) ↦ some (
          pos (length p.entries),
          record (with_volume s v) { memory = put_infos s.memory entries p.entries },
        )
      ]

  pub sys_chdir : (fuel path : ℕ) → System B P → Option (ℤ × System B P)
  sys_chdir fuel path s = elim (change_dir fuel (string_at s.memory path) s.fs s.files.volume) [
    | none ↦ none
    | some ((ok, fs), v) ↦ some (status ok, record (with_volume s v) { fs = fs })
  ]

  -- A size of 0 makes `size - 1` the largest number.
  pub sys_getcwd : (buf size : ℕ) → System B P → ℤ × System B P
  sys_getcwd buf size s =
      let copied = strncpy s.memory buf s.fs.current_path (sub32 size 1) in
      (pos 0, record s { memory = update copied (u32 (buf + size + (2 ^ 32 - 1))) 0 })

  pub sys_mkdir : (fuel path : ℕ) → System B P → Option (ℤ × System B P)
  sys_mkdir fuel path s =
      on_volume s (create_dir s.fs fuel (string_at s.memory path) s.files.volume)

  pub sys_remove : (fuel path : ℕ) → System B P → Option (ℤ × System B P)
  sys_remove fuel path s = on_volume s (delete s.fs fuel (string_at s.memory path) s.files.volume)

  pub sys_create : (fuel path : ℕ) → System B P → Option (ℤ × System B P)
  sys_create fuel path s =
      on_volume s (create_file s.fs fuel (string_at s.memory path) s.files.volume)

  pub sys_copy : (rounds fuel src dst : ℕ) → System B P → Option (ℤ × System B P)
  sys_copy rounds fuel src dst s =
      elim (copy s.fs rounds fuel (string_at s.memory src) (string_at s.memory dst) s.files) [
        | none ↦ none
        | some (ok, files) ↦ some (status ok, with_files s files)
      ]

  pub sys_rename : (fuel old_path new_path : ℕ) → System B P → Option (ℤ × System B P)
  sys_rename fuel old_path new_path s =
      on_volume s (
        rename s.fs fuel (string_at s.memory old_path) (string_at s.memory new_path) s.files.volume)

  pub sys_diskinfo : (total free_space_ptr cluster_size : ℕ) → System B P → ℤ × System B P
  sys_diskinfo total free_space_ptr cluster_size s =
      let with_total = put_if s.memory total (total_space s.fs) in
      let counted = free_space s.fs s.files.volume in
      let v = if free_space_ptr == 0 then s.files.volume else counted.1 in
      let with_free = put_if with_total free_space_ptr counted.0 in
      (
        pos 0,
        record (with_volume s v) { memory = put_if with_free cluster_size s.fs.bytes_per_cluster },
      )
