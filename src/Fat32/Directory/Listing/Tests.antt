-- ===== src/Fat32/Directory/Listing/Tests.antt =====
-- A directory of two clusters on the small volume, and long names.
use hazle_os.Prelude.{ℕ, ◌≡◌, refl, true, false, arith, Buffer, blank, ◌==◌, if◌then◌else◌, get16}
use hazle_os.Fat32.{Volume}
use hazle_os.Fat32.Directory.Listing.{
  LongName, long_entry, extract_lfn_chars, extract_part, put_char,
}
use hazle_os.Fat32.Directory.Listing.Overrun.{long_entry-inside}
use hazle_os.Fat32.Tests.{ram, two_links, unread}

abbrev linked : Volume ram
linked = unread two_links

abbrev no_name : LongName
no_name = record { lfn_buffer = blank; has_lfn = false; overrun = false }

-- An entry of the given order whose 13 characters are all `a`.
abbrev part : ℕ → Buffer
part order j = if j == 0 then order else b'a'

-- With order 19 the characters lie within the array, with order 20 they do not.
lfn_inside : (long_entry (part 0x53) 0 no_name).overrun ≡ false
unfolding long_entry extract_lfn_chars extract_part put_char get16
lfn_inside = refl

lfn_outside : (long_entry (part 0x54) 0 no_name).overrun ≡ true
unfolding long_entry extract_lfn_chars extract_part put_char get16
lfn_outside = refl

long_entry-inside_example : (long_entry (part 0x53) 0 no_name).overrun ≡ no_name.overrun
long_entry-inside_example = long_entry-inside (part 0x53) 0 no_name (omega arith) (omega arith)
