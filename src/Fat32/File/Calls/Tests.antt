-- ===== src/Fat32/File/Calls/Tests.antt =====
-- Calls on descriptors on the small volume.
use hazle_os.Prelude.{ℕ, ◌⊎◌, ◌==◌, ◌≡◌, refl, false, some, [], blank, pos, neg}
use hazle_os.Fat32.File.{OpenFile, Files, lookup}
use hazle_os.Fat32.File.Calls.{read}
use hazle_os.Fat32.File.Calls.Checked.{IsOpen, IsServed, IsRefused, lookup-IsOpen}
use hazle_os.Fat32.Tests.{ram, small_fs, unread, two_links}

abbrev closed_file : OpenFile
closed_file = record {
  in_use = false;
  dirty = false;
  first_cluster = 0;
  current_cluster = 0;
  current_sector = 0;
  position = 0;
  size = 0;
  original_size = 0;
  attributes = 0;
  parent_cluster = 0;
  filename = [];
}

abbrev no_files : Files ram
no_files = record { volume = unread two_links; open_files = λ i. closed_file }

-- The place 3 is free, and the place 4 is in use.
abbrev one_file : Files ram
one_file = record no_files {
  open_files = λ i. record closed_file { in_use = i == 4; position = 7; size = 9 };
}

refuses_free_place : read small_fs 9 (pos 3) blank 512 one_file ≡ some ((neg 1, blank), one_file)
unfolding read lookup
refuses_free_place = refl

lookup-IsOpen_example :
    ((k : ℕ) × IsOpen (pos 4) k one_file × IsServed small_fs 9 k (pos 4) 100 one_file)
    ⊎ (((k : ℕ) → ¬ IsOpen (pos 4) k one_file)
        × IsRefused small_fs 9 (pos 4) blank 512 100 one_file)
lookup-IsOpen_example = lookup-IsOpen small_fs 9 (pos 4) blank 512 100 one_file
