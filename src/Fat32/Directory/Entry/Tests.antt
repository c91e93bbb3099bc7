-- ===== src/Fat32/Directory/Entry/Tests.antt =====
-- The theorems on short names and directory entries at concrete names.
use hazle_os.Prelude.{Buffer, blank, ◌+◌, ◌≡◌, [], ◌∷◌, ◌++◌, map, arith}
use hazle_os.Libc.{CString}
use hazle_os.Fat32.Directory.Entry.{to_upper, compose_entry, info_at, scan_name, skipped_by_find}
use hazle_os.Fat32.Directory.Entry.Compose.{info_at-compose_entry}
use hazle_os.Fat32.Directory.Entry.Search.{Searched, scan_name-Searched}
use hazle_os.Fat32.Directory.Entry.Names.{short_name_of, short_name_of-dotted}

abbrev stem : CString
stem = b'l' ∷ b's' ∷ []

abbrev ext : CString
ext = b'i' ∷ b'n' ∷ []

short_name_of-dotted_example :
    short_name_of (stem ++ b'.' ∷ b'b' ∷ ext) ≡ map to_upper (stem ++ b'.' ∷ b'b' ∷ ext)
short_name_of-dotted_example =
    short_name_of-dotted stem b'b' ext (ground arith) (omega arith) (ground arith) (omega arith)

abbrev written : Buffer
written = compose_entry blank 64 stem 0x20 70000 513

info_at-compose_entry_example :
    ((info_at written 64).name ≡ short_name_of stem)
    × ((info_at written 64).attributes ≡ 0x20)
    × ((info_at written 64).size ≡ 513)
    × ((info_at written 64).first_cluster ≡ 70000)
info_at-compose_entry_example =
    info_at-compose_entry blank 64 stem 0x20 70000 513 (omega arith) (omega arith)

scan_name-Searched_example :
    Searched skipped_by_find stem written 0 (0 + 16) (scan_name skipped_by_find stem 16 0 written)
scan_name-Searched_example = scan_name-Searched skipped_by_find stem written 16 0
