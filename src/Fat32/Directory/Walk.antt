-- ===== src/Fat32/Directory/Walk.antt =====
-- drivers/fat32/directory.c: the walk along the clusters of a directory, and the functions on it.
-- `none` means that the fuel ran out: the walk has no end on a chain that runs in a circle,
-- or that a cluster does not fit in `dir_cluster_buffer` and the code would write past the end of it.
use hazle_os.Prelude.{
  ℕ, zero, suc, ◌*◌, ◌/◌, Bool, true, false, map, Option, none, some, ltb, Buffer, blank, update,
  take,
}
use hazle_os.Device.{BlockDevice}
use hazle_os.Libc.{CString}
use hazle_os.Fat32.{Fs, Volume, overflows}
use hazle_os.Fat32.Table.{get_fat_entry}
use hazle_os.Fat32.Bpb.{read_cluster, write_cluster, is_eoc}
use hazle_os.Fat32.Directory.Entry.{
  Scan, ended, missing, at, Slot, FileInfo, info_at, scan_name, scan_free, skipped_by_find,
  skipped_by_update, to_upper, set_size, set_first_cluster, compose_entry, entry_free,
}

abbrev pub entries_per_cluster : Fs → ℕ
entries_per_cluster fs = fs.bytes_per_cluster / 32

-- The name as `fat32_find_entry` compares it: cut at 63 characters, in capitals.
abbrev pub find_key : CString → CString
find_key name = map to_upper (take 63 name)

abbrev pub update_key : CString → CString
update_key name = map to_upper name

module _ {B : BlockDevice} (fs : Fs) where
  -- `while (current_cluster >= 2)`: read the cluster, scan its entries, follow the link.
  pub walk : (Buffer → Scan) → (fuel cluster : ℕ) → Volume B → Option (Option Slot × Volume B)
  walk scan zero cluster v = none
  walk scan (suc fuel) cluster v = elim (ltb cluster 2) [
    | true ↦ some (none, v)
    | false ↦ elim (overflows fs) [
      | true ↦ none
      | false ↦
          let (got, w) = read_cluster fs cluster blank v in
          elim got [
            | none ↦ some (none, w)
            | some b ↦ elim (scan b) [
              | ended ↦ some (none, w)
              | at i ↦ some (some (record { cluster = cluster; index = i; bytes = b }), w)
              | missing ↦
                  let (next, x) = get_fat_entry fs cluster w in
                  elim (is_eoc next) [ true ↦ some (none, x) | false ↦ walk scan fuel next x ]
            ]
          ]
    ]
  ]

  pub find_entry : (fuel dir_cluster : ℕ) → CString → Volume B → Option (Option FileInfo × Volume B)
  unfolding walk
  find_entry fuel dir_cluster name v =
      elim (walk (scan_name skipped_by_find (find_key name) (entries_per_cluster fs) 0) fuel
        dir_cluster v) [
          | none ↦ none
          | some (none, w) ↦ some (none, w)
          | some (some s, w) ↦ some (some (info_at s.bytes (s.index * 32)), w)
        ]

  pub find_free_entry : (fuel dir_cluster : ℕ) → Volume B → Option (Option Slot × Volume B)
  unfolding walk
  find_free_entry fuel dir_cluster v =
      walk (scan_free (entries_per_cluster fs) 0) fuel dir_cluster v

  -- The cluster is read again before the new entry is composed in it.
  pub create_entry :
      (fuel dir_cluster : ℕ) (name : CString) (attributes first_cluster size : ℕ)
      → Volume B
      → Option (Bool × Volume B)
  unfolding find_free_entry
  create_entry fuel dir_cluster name attributes first_cluster size v =
      elim (find_free_entry fuel dir_cluster v) [
        | none ↦ none
        | some (none, w) ↦ some (false, w)
        | some (some s, w) ↦
            let (got, x) = read_cluster fs s.cluster blank w in
            elim got [
              | none ↦ some (false, x)
              | some b ↦ some (
                  write_cluster fs s.cluster
                    (compose_entry b (s.index * 32) name attributes first_cluster size) x)
            ]
      ]

  -- The loop that `fat32_delete_entry` and the three updates share: find the name, change the
  -- entry at its offset, write the cluster.
  pub change_entry :
      (fuel dir_cluster : ℕ) (name : CString) (change : Buffer → ℕ → Buffer)
      → Volume B
      → Option (Bool × Volume B)
  unfolding walk
  change_entry fuel dir_cluster name change v =
      elim (walk (scan_name skipped_by_update (update_key name) (entries_per_cluster fs) 0) fuel
        dir_cluster v) [
          | none ↦ none
          | some (none, w) ↦ some (false, w)
          | some (some s, w) ↦ some (write_cluster fs s.cluster (change s.bytes (s.index * 32)) w)
        ]

  pub delete_entry : (fuel dir_cluster : ℕ) → CString → Volume B → Option (Bool × Volume B)
  unfolding change_entry
  delete_entry fuel dir_cluster name =
      change_entry fuel dir_cluster name (λ b o. update b o entry_free)

  pub update_entry_size :
      (fuel dir_cluster : ℕ) → CString → (new_size : ℕ) → Volume B → Option (Bool × Volume B)
  unfolding change_entry
  update_entry_size fuel dir_cluster name new_size =
      change_entry fuel dir_cluster name (λ b o. set_size b o new_size)

  pub update_entry_cluster :
      (fuel dir_cluster : ℕ) → CString → (new_cluster : ℕ) → Volume B → Option (Bool × Volume B)
  unfolding change_entry
  update_entry_cluster fuel dir_cluster name new_cluster =
      change_entry fuel dir_cluster name (λ b o. set_first_cluster b o new_cluster)

  pub update_entry :
      (fuel dir_cluster : ℕ)
      → CString
      → (new_size new_cluster : ℕ) → Volume B
      → Option (Bool × Volume B)
  unfolding change_entry
  update_entry fuel dir_cluster name new_size new_cluster =
      change_entry fuel dir_cluster name
        (λ b o. set_first_cluster (set_size b o new_size) o new_cluster)
