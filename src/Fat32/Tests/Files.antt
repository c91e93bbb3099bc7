-- ===== src/Fat32/Tests/Files.antt =====
-- Reads of a file of two clusters on the small volume.
use hazle_os.Prelude.{
  ℕ, ◌≡◌, refl, true, some, arith, [], ◌∷◌, blank, ◌<◌, set32, get32, signed32, false,
}
use hazle_os.Fat32.{Volume}
use hazle_os.Fat32.Table.Coherent.{IsCoherent, entry}
use hazle_os.Fat32.Table.Links.{Chain, stop, link}
use hazle_os.Fat32.File.{OpenFile, Transfer, read_file}
use hazle_os.Fat32.File.Stream.{cluster_byte}
use hazle_os.Fat32.File.Reading.{IsRead}
use hazle_os.Fat32.File.Reads.{IsReadable, read_file-IsRead, read_file-repeats}
use hazle_os.Fat32.Tests.{
  ram, ram-IsReliable, small_fs, small_fs-IsGeometry, small_fs-IsSized, small_fs-IsLaidOut,
  two_links, unread, unread-IsCoherent, two_links-IsBytes,
}

abbrev linked : Volume ram
linked = unread two_links

linked-IsCoherent : IsCoherent small_fs linked
linked-IsCoherent = unread-IsCoherent two_links two_links-IsBytes

abbrev two_clusters : OpenFile
two_clusters = record {
  in_use = true;
  dirty = false;
  first_cluster = 2;
  current_cluster = 2;
  current_sector = 0;
  position = 0;
  size = 1024;
  original_size = 1024;
  attributes = 32;
  parent_cluster = 4;
  filename = b'A' ∷ [];
}

linked-Chain : Chain (entry small_fs linked) 2 (2 ∷ 3 ∷ [])
unfolding get32 set32
linked-Chain = link refl (link refl (stop refl))

two_clusters-IsReadable : IsReadable small_fs linked two_clusters (2 ∷ 3 ∷ []) 700
two_clusters-IsReadable = record {
  chain = linked-Chain;
  are_data = λ k h. ground arith;
  word = omega arith;
  fits_array = omega arith;
  holds = omega arith;
}

read_file-IsRead_example :
    (t : Transfer) × (w : Volume ram) × (read_file small_fs 701 700 blank two_clusters linked
      ≡ some (t, w))
    × IsRead small_fs small_fs-IsGeometry small_fs-IsSized small_fs-IsLaidOut ram-IsReliable linked
        w two_clusters
        (2 ∷ 3 ∷ [])
        700
        0
        blank
        t
read_file-IsRead_example =
    read_file-IsRead small_fs small_fs-IsGeometry small_fs-IsSized small_fs-IsLaidOut ram-IsReliable
      700 blank two_clusters linked (2 ∷ 3 ∷ []) (omega arith) linked-IsCoherent
      two_clusters-IsReadable

one_cluster-IsReadable : IsReadable small_fs linked two_clusters (2 ∷ 3 ∷ []) 512
one_cluster-IsReadable = record {
  chain = linked-Chain;
  are_data = λ k h. ground arith;
  word = omega arith;
  fits_array = omega arith;
  holds = omega arith;
}

read_file-repeats_example :
    (t u : Transfer) × (w x : Volume ram) × (read_file small_fs 513 512 blank two_clusters linked
      ≡ some (t, w))
    × (read_file small_fs 101 100 blank t.file w ≡ some (u, x))
    × (t.result ≡ signed32 512)
    × (u.result ≡ signed32 100)
    × (u.file.position ≡ 612)
    × ((j : ℕ)
        → j < 100
        → (t.bytes j ≡ cluster_byte small_fs linked 2 j)
          × (u.bytes j ≡ cluster_byte small_fs linked 2 j))
read_file-repeats_example =
    read_file-repeats small_fs small_fs-IsGeometry small_fs-IsSized small_fs-IsLaidOut
      ram-IsReliable 100 blank blank two_clusters linked 2 (3 ∷ []) linked-IsCoherent refl
      (omega arith) (omega arith) (omega arith) one_cluster-IsReadable
