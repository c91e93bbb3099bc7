-- ===== src/Fat32/Path.antt =====
-- drivers/fat32/file.c: the resolution of a path, and the operations that work on a path alone.
-- `none` of the outer option means that the fuel of a directory walk or of a chain ran out, or that
-- a cluster does not fit in the array that it goes through.
use hazle_os.Prelude.{
  ℕ, ◌+◌, Bool, true, false, List, [], ◌∷◌, Option, none, some, leb, ◌==◌, if◌then◌else◌, Buffer,
  blank, update, take, length,
}
use hazle_os.Device.{BlockDevice}
use hazle_os.Libc.{CString, head_char, strtok, tokens_from, memset}
use hazle_os.Fat32.{Fs, Volume, overflows}
use hazle_os.Fat32.Table.{allocate_cluster, free_chain}
use hazle_os.Fat32.Bpb.{write_cluster}
use hazle_os.Fat32.Directory.Entry.{
  is_directory, attr_directory, attr_archive, put_bytes, set_first_cluster, field,
}
use hazle_os.Fat32.Directory.Walk.{find_entry, create_entry, delete_entry}

abbrev pub slash : CString
slash = b'/' ∷ []

-- The text before and behind its last slash.
pub split_last_slash : CString → Option (CString × CString)
split_last_slash [] = none
split_last_slash (c ∷ s) = elim (split_last_slash s) [
  | some (before, behind) ↦ some (c ∷ before, behind)
  | none ↦ if c == b'/' then some ([], s) else none
]

-- The calls `strtok(text, "/")`, `strtok(NULL, "/")`, … up to the null pointer.
abbrev pub segments : CString → List CString
segments s = tokens_from (length s + 1) slash (strtok (some s) slash none)

-- What `strtok` gets of the directory part: it starts behind a leading slash.
abbrev pub behind_root : CString → CString
behind_root [] = []
behind_root (c ∷ s) = if c == b'/' then s else c ∷ s

-- `if (!step) return failure;` before what follows, where a step may run out of fuel.
abbrev pub step_or {ℓ κ μ} :
    {S : Type ℓ} {A : Type κ} {C : Type μ}
    → Option (Option A × S)
    → C
    → (A → S → Option (C × S))
    → Option (C × S)
step_or none failure next = none
step_or (some (none, s)) failure next = some (failure, s)
step_or (some (some a, s)) failure next = next a s

-- `path[0] == '/' ? root_cluster : current_directory`
pub start_cluster : Fs → CString → ℕ
start_cluster fs path = if head_char path == b'/' then fs.root_cluster else fs.current_directory

-- The cluster of a new directory: the entries `.` and `..`.
pub dot_entries : Fs → (new_cluster dir_cluster : ℕ) → Buffer
dot_entries fs new_cluster dir_cluster =
    let cleared = memset blank 0 0 fs.bytes_per_cluster in
    let dot = update (put_bytes cleared 0 (field 11 (b'.' ∷ []))) 11 attr_directory in
    let linked = set_first_cluster dot 0 new_cluster in
    let dotdot = update (put_bytes linked 32 (field 11 (b'.' ∷ b'.' ∷ []))) 43 attr_directory in
    set_first_cluster dotdot 32 dir_cluster

module _ {B : BlockDevice} (fs : Fs) where
  -- The loop over the segments of the directory part.
  pub follow : (fuel : ℕ) → List CString → (current : ℕ) → Volume B → Option (Option ℕ × Volume B)
  follow fuel [] current v = some (some current, v)
  follow fuel (segment ∷ rest) current v =
      step_or (find_entry fs fuel current segment v) none (λ info w.
        elim (is_directory info.attributes) [
          | true ↦ follow fuel rest info.first_cluster w
          | false ↦ some (none, w)
        ])

  -- The cluster of the directory, and the name in it.
  pub parse_path : (fuel : ℕ) → CString → Volume B → Option (Option (ℕ × CString) × Volume B)
  unfolding split_last_slash follow start_cluster
  parse_path fuel path v = elim (split_last_slash (take 255 path)) [
    | none ↦ some (some (start_cluster fs path, take 255 path), v)
    | some (before, behind) ↦
        step_or (follow fuel (segments (behind_root before)) (start_cluster fs path) v) none
          (λ dir w. some (some (dir, behind), w))
  ]

  -- `if (fat32_find_entry(...)) return false;` before what follows.
  pub unless_found :
      (fuel dir : ℕ)
      → CString
      → (Volume B → Option (Bool × Volume B))
      → Volume B
      → Option (Bool × Volume B)
  unless_found fuel dir name next v = elim (find_entry fs fuel dir name v) [
    | none ↦ none
    | some (some info, w) ↦ some (false, w)
    | some (none, w) ↦ next w
  ]

  pub create_file : (fuel : ℕ) → CString → Volume B → Option (Bool × Volume B)
  unfolding parse_path unless_found
  create_file fuel path v =
      step_or (parse_path fuel path v) false
        (λ at w. unless_found fuel at.0 at.1 (create_entry fs fuel at.0 at.1 attr_archive 0 0) w)

  -- The rest of `fat32_create_dir`, once the name is known to be free.
  pub make_dir : (fuel dir : ℕ) → CString → Volume B → Option (Bool × Volume B)
  unfolding dot_entries
  make_dir fuel dir name v =
      let (new_cluster, w) = allocate_cluster fs v in
      elim (new_cluster == 0) [
        | true ↦ some (false, w)
        | false ↦ elim (overflows fs) [
          | true ↦ none
          | false ↦
              let (written, x) = write_cluster fs new_cluster (dot_entries fs new_cluster dir) w in
              elim written [
                | true ↦ create_entry fs fuel dir name attr_directory new_cluster 0 x
                | false ↦ elim (free_chain fs fuel new_cluster x) [
                  | none ↦ none
                  | some (freed, y) ↦ some (false, y)
                ]
              ]
        ]
      ]

  pub create_dir : (fuel : ℕ) → CString → Volume B → Option (Bool × Volume B)
  unfolding parse_path unless_found make_dir
  create_dir fuel path v =
      step_or (parse_path fuel path v) false
        (λ at w. unless_found fuel at.0 at.1 (make_dir fuel at.0 at.1) w)

  -- `if (first_cluster >= 2) fat32_free_chain(first_cluster);`
  pub free_content : (fuel first : ℕ) → Volume B → Option (Bool × Volume B)
  free_content fuel first v = elim (leb 2 first) [
    | true ↦ free_chain fs fuel first v
    | false ↦ some (true, v)
  ]

  pub delete : (fuel : ℕ) → CString → Volume B → Option (Bool × Volume B)
  unfolding parse_path free_content
  delete fuel path v = step_or (parse_path fuel path v) false (λ at w.
      step_or (find_entry fs fuel at.0 at.1 w) false (λ info x.
        elim (free_content fuel info.first_cluster x) [
          | none ↦ none
          | some (freed, y) ↦ delete_entry fs fuel at.0 at.1 y
        ]))

  pub rename : (fuel : ℕ) → (old_path new_path : CString) → Volume B → Option (Bool × Volume B)
  unfolding parse_path
  rename fuel old_path new_path v = step_or (parse_path fuel old_path v) false (λ old w.
      step_or (parse_path fuel new_path w) false (λ new x.
        step_or (find_entry fs fuel old.0 old.1 x) false (λ info y.
          elim (create_entry fs fuel new.0 new.1 info.attributes info.first_cluster info.size y) [
            | none ↦ none
            | some (false, z) ↦ some (false, z)
            | some (true, z) ↦ delete_entry fs fuel old.0 old.1 z
          ])))
