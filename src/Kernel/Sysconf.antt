-- ===== src/Kernel/Sysconf.antt =====
-- kernel/sysconf.c: the system's configuration and its file. A field of characters is the buffer
-- that holds it.
pub mod Trim
pub mod Lines
pub mod Fields
pub mod Tests
use hazle_os.Prelude.{
  ℕ, zero, suc, ◌+◌, Bool, true, false, ◌||◌, List, [], ◌∷◌, ◌++◌, Option, none, some, ltb, ◌==◌,
  if◌then◌else◌, Buffer, blank, take, length, get_or, ℤ, pos, negsuc, codes, u8, stored,
}
use hazle_os.Device.{BlockDevice}
use hazle_os.Libc.{
  CString, strlen, head_char, strcmp, is_zero, strcpy, strncpy, atoi, skip_spaces, string_in,
}
use hazle_os.Fat32.{Fs}
use hazle_os.Fat32.File.{Files}
use hazle_os.Fat32.File.Calls.{open_file, read, close}

-- `sysconf_t`
pub record Sysconf : Type 0 where
  pub bin_path : Buffer
  pub prompt : Buffer
  pub default_fg : ℕ
  pub default_bg : ℕ
  pub history_size : ℕ
  pub version : Buffer
  pub name : Buffer

abbrev pub sysconf_path : CString
sysconf_path = codes "/.systemconf"

pub set_defaults : Sysconf → Sysconf
set_defaults c = record {
  bin_path = strcpy c.bin_path 0 (codes "/usr/bin");
  prompt = strcpy c.prompt 0 (codes "hazle@os:$");
  default_fg = 7;
  default_bg = 0;
  history_size = 50;
  version = strcpy c.version 0 (codes "1.0.0");
  name = strcpy c.name 0 (codes "Hazle OS");
}

-- The characters that `trim` drops at the end: a space and the ends of lines.
abbrev pub is_blank : ℕ → Bool
is_blank c = (c == b' ') || (c == 10) || (c == 13)

-- `while (len > 0 && ...) str[--len] = '\0';`
pub trimmed_length : (len : ℕ) → CString → ℕ
trimmed_length zero str = 0
trimmed_length (suc n) str =
    let rest = trimmed_length n str in if is_blank (get_or str n 0) then rest else suc n

-- The second loop of `trim` skips spaces, as the first one of `atoi` does.
pub trim : CString → CString
unfolding trimmed_length
trim str = skip_spaces (take (trimmed_length (strlen str) str) str)

-- The loop over the key: at most `n` characters before `=`, and what is left of the line.
pub take_key : (n : ℕ) → CString → CString × CString
take_key zero line = ([], line)
take_key (suc n) [] = ([], [])
take_key (suc n) (c ∷ line) =
    let (key, rest) = take_key n line in if c == b'=' then ([], c ∷ line) else (c ∷ key, rest)

-- What a key and its value set.
pub set_option : (key value : CString) → Sysconf → Sysconf
set_option key value c =
    if is_zero (strcmp key (codes "bin"))
    then record c { bin_path = strncpy c.bin_path 0 value 63 }
    else if is_zero (strcmp key (codes "prompt"))
    then record c { prompt = strncpy c.prompt 0 value 31 }
    else if is_zero (strcmp key (codes "default_fg"))
    then record c { default_fg = u8 (stored (atoi value)) }
    else if is_zero (strcmp key (codes "default_bg"))
    then record c { default_bg = u8 (stored (atoi value)) }
    else if is_zero (strcmp key (codes "history_size"))
    then record c { history_size = stored (atoi value) }
    else if is_zero (strcmp key (codes "version"))
    then record c { version = strncpy c.version 0 value 15 }
    else if is_zero (strcmp key (codes "name"))
    then record c { name = strncpy c.name 0 value 31 }
    else c

-- The key and the value of a line, trimmed; `none` is a line that sets nothing.
pub key_value : CString → Option (CString × CString)
unfolding take_key trim
key_value [] = none
key_value (c ∷ line) =
    if (c == b'#') || (c == b'[')
    then none
    else (let (key, rest) = take_key 63 (c ∷ line) in
        elim rest [
          | [] ↦ none
          | d ∷ value ↦ if d == b'=' then some (trim key, trim (take 63 value)) else none
        ])

pub parse_line : CString → Sysconf → Sysconf
unfolding key_value set_option
parse_line line c = elim (key_value line) [ none ↦ c | some (key, value) ↦ set_option key value c ]

-- `line` up to `line_pos`, as a C string: it ends at a zero byte of the file.
abbrev pub until_zero : List ℕ → CString
until_zero [] = []
until_zero (c ∷ s) = if c == 0 then [] else c ∷ until_zero s

-- One character of the file; `line` holds the characters of the current line.
pub feed : ℕ → List ℕ × Sysconf → List ℕ × Sysconf
unfolding parse_line
feed c (line, conf) =
    if (c == 10) || (c == 13)
    then ([], if ltb 0 (length line) then parse_line (until_zero line) conf else conf)
    else if ltb (length line) 127
    then (line ++ c ∷ [], conf)
    else (line, conf)

-- `for (i = 0; i < bytes; i++)`, with `n` bytes left.
pub feed_buffer : (n i : ℕ) → Buffer → List ℕ × Sysconf → List ℕ × Sysconf
unfolding feed
feed_buffer zero i buffer s = s
feed_buffer (suc n) i buffer s = feed_buffer n (i + 1) buffer (feed (buffer i) s)

-- The last line, which no end of line closes.
pub feed_end : List ℕ × Sysconf → Sysconf
unfolding parse_line
feed_end (line, conf) = if ltb 0 (length line) then parse_line (until_zero line) conf else conf

module _ {B : BlockDevice} (fs : Fs) where
  -- `while ((bytes = fat32_read(fd, buffer, 512)) > 0)`
  pub load_loop :
      (rounds fuel : ℕ) (fd : ℤ)
      → List ℕ × Sysconf
      → Files B
      → Option ((List ℕ × Sysconf) × Files B)
  unfolding feed_buffer
  load_loop zero fuel fd s files = none
  load_loop (suc rounds) fuel fd s files = elim (read fs fuel fd blank 512 files) [
    | none ↦ none
    | some ((negsuc n, buffer), t) ↦ some (s, t)
    | some ((pos zero, buffer), t) ↦ some (s, t)
    | some ((pos (suc n), buffer), t) ↦ load_loop rounds fuel fd (feed_buffer (suc n) 0 buffer s) t
  ]

  -- `sysconf_load` once the file is open.
  pub load_from :
      (rounds fuel : ℕ) (fd : ℤ) → Sysconf → Files B → Option ((Bool × Sysconf) × Files B)
  unfolding load_loop feed_end
  load_from rounds fuel fd conf files = elim (load_loop rounds fuel fd ([], conf) files) [
    | none ↦ none
    | some (s, t) ↦ elim (close fs fuel fd t) [
      | none ↦ none
      | some u ↦ some ((true, feed_end s), u)
    ]
  ]

  -- `sysconf_load`
  pub load : (rounds fuel : ℕ) → Sysconf → Files B → Option ((Bool × Sysconf) × Files B)
  unfolding set_defaults load_from
  load rounds fuel conf files = elim fs.mounted [
    | false ↦ some ((false, set_defaults conf), files)
    | true ↦ elim (open_file fs fuel sysconf_path files) [
      | none ↦ none
      | some (negsuc n, t) ↦ some ((false, set_defaults conf), t)
      | some (pos fd, t) ↦ load_from rounds fuel (pos fd) (set_defaults conf) t
    ]
  ]

-- `sysconf_init`
pub init : Sysconf → Sysconf
unfolding set_defaults
init c = set_defaults c

-- `sysconf_get_bin_path` and `sysconf_get_prompt`: the strings in their arrays.
pub get_bin_path : Sysconf → CString
get_bin_path c = string_in 64 0 c.bin_path

pub get_prompt : Sysconf → CString
get_prompt c = string_in 32 0 c.prompt
