-- ===== src/Kernel/Sysconf/Tests.antt =====
-- A configuration file, and lines of it.
use hazle_os.Prelude.{
  Returned, ℕ, ◌≡◌, refl, false, List, [], ◌∷◌, none, some, Buffer, blank, codes, get_or, arith,
}
use hazle_os.Libc.{CString, skip_spaces, strcpy, string_in}
use hazle_os.Libc.Tokens.{split, nonempty}
use hazle_os.Kernel.Sysconf.{
  Sysconf, set_defaults, take_key, trimmed_length, trim, key_value, feed_end, load, get_bin_path,
}
use hazle_os.Kernel.Sysconf.Fields.{IsEnded, load-IsEnded}
use hazle_os.Fat32.File.{Files, OpenFile}
use hazle_os.Fat32.Tests.{ram, small_fs, unread, two_links}
use hazle_os.Kernel.Sysconf.Lines.{
  line_ends, parse_lines, feed_buffers, text_of_all, feed_buffers-lines,
}

abbrev pub cleared : Sysconf
cleared = record {
  bin_path = blank;
  prompt = blank;
  default_fg = 0;
  default_bg = 0;
  history_size = 0;
  version = blank;
  name = blank;
}

key_value_option : key_value (codes "bin = /sbin ") ≡ some (codes "bin", codes "/sbin")
unfolding key_value take_key trim trimmed_length skip_spaces
key_value_option = refl

key_value_comment : key_value (codes "# bin = /sbin") ≡ none
unfolding key_value
key_value_comment = refl

default_bin_path : get_bin_path (set_defaults cleared) ≡ codes "/usr/bin"
unfolding get_bin_path string_in set_defaults strcpy
default_bin_path = refl

-- The file `#x\n\nbin=/a\n`, in two buffers that are cut within a line.
abbrev buffer_of : CString → Buffer
buffer_of s i = get_or s i 0

abbrev two_buffers : List (ℕ × Buffer)
two_buffers =
    (6, buffer_of (b'#' ∷ b'x' ∷ 10 ∷ 10 ∷ b'b' ∷ b'i' ∷ []))
    ∷ (5, buffer_of (b'n' ∷ b'=' ∷ b'/' ∷ b'a' ∷ 10 ∷ []))
    ∷ []

feed_buffers-lines_example :
    feed_end (feed_buffers two_buffers ([], cleared))
    ≡ parse_lines (nonempty (split line_ends (text_of_all two_buffers))) cleared
feed_buffers-lines_example = feed_buffers-lines two_buffers cleared

cleared-IsEnded : IsEnded cleared
cleared-IsEnded = record {
  bin_path_ends = refl;
  prompt_ends = refl;
  version_ends = refl;
  name_ends = refl;
  fg_byte = omega arith;
  bg_byte = omega arith;
}

abbrev pub closed_file : OpenFile
closed_file = record {
  in_use = false;
  dirty = false;
  first_cluster = 0;
  current_cluster = 0;
  current_sector = 0;
  position = 0;
  size = 0;
  original_size = 0;
  attributes = 0;
  parent_cluster = 0;
  filename = [];
}

abbrev pub no_files : Files ram
no_files = record { volume = unread two_links; open_files = λ i. closed_file }

load-IsEnded_example : Returned (λ r. IsEnded r.1) (load small_fs 9 9 cleared no_files)
load-IsEnded_example = load-IsEnded small_fs 9 9 cleared no_files cleared-IsEnded
