-- ===== src/Fat32/Bpb/Tests.antt =====
-- The theorems on drivers/fat32/bpb.c at concrete volumes.
use hazle_os.Prelude.{
  ℕ, ◌≡◌, refl, true, some, arith, if◌then◌else◌, ◌==◌, ◌%◌, Buffer, blank, get16, get32,
}
use hazle_os.Fat32.{Fs, Volume}
use hazle_os.Fat32.Table.Coherent.{IsGeometry, IsSameTable}
use hazle_os.Fat32.Table.Alloc.{IsSized}
use hazle_os.Fat32.Bpb.{
  parsed, parse_sector, root_path, cluster_to_lba, read_cluster, write_cluster, place_sector,
  cut_sector, read_sectors, write_sectors,
}
use hazle_os.Fat32.Bpb.Layout.{IsLaidOut, IsBoot, parse_sector-IsLaidOut}
use hazle_os.Fat32.Bpb.Transfer.{
  write_cluster-IsSameTable, read_cluster-write_cluster, write_cluster-reliable,
}
use hazle_os.Fat32.Tests.{
  ram, ram-IsReliable, small_fs, small_fs-IsGeometry, small_fs-IsLaidOut, two_links, unread,
  unread-IsCoherent, two_links-IsBytes,
}

-- The boot sector of the small volume.
abbrev boot : Buffer
boot j =
    if j == 12
    then 2
    else if j == 13
    then 1
    else if j == 14
    then 2
    else if j == 16
    then 2
    else if j == 32
    then 12
    else if j == 36
    then 1
    else if j == 44
    then 2
    else 0

boot-IsBoot : IsBoot boot
unfolding get16 get32
boot-IsBoot = record {
  sector_size = refl;
  no_fat16 = refl;
  cluster_size = omega arith;
  cluster_small = omega arith;
  copies = omega arith;
  table_size = omega arith;
  total_fits = omega arith;
  regions = omega arith;
  table_covers = omega arith;
  large = omega arith;
}

parse_sector-IsLaidOut_example :
    (fs : Fs) × (parse_sector true boot ≡ parsed fs)
    × IsGeometry fs
    × IsSized fs
    × IsLaidOut fs
    × (fs.current_directory ≡ get32 boot 44)
    × (fs.current_path ≡ root_path)
parse_sector-IsLaidOut_example = parse_sector-IsLaidOut true boot boot-IsBoot

abbrev three : ℕ
three = 3

abbrev nought : ℕ
nought = 0

abbrev linked : Volume ram
linked = unread two_links

abbrev text : Buffer
text j = j % 256

write_cluster-IsSameTable_example :
    IsSameTable small_fs linked (write_cluster small_fs 3 text linked).1
write_cluster-IsSameTable_example =
    write_cluster-IsSameTable small_fs small_fs-IsGeometry small_fs-IsLaidOut 3 text linked
      (omega arith) (λ j. omega arith) (unread-IsCoherent two_links two_links-IsBytes)

abbrev reread : Buffer
reread = place_sector blank 0 (cut_sector text 0)

-- The read succeeds with the bytes of the sector over the old buffer.
read_back : (read_cluster small_fs 3 blank (write_cluster small_fs 3 text linked).1).0 ≡ some reread
unfolding read_cluster read_sectors write_cluster write_sectors cluster_to_lba
read_back = refl

abbrev last_byte : ℕ
last_byte = 511

read_cluster-write_cluster_example : reread last_byte ≡ text last_byte
read_cluster-write_cluster_example =
    read_cluster-write_cluster small_fs small_fs-IsGeometry small_fs-IsLaidOut 3 text linked
      (omega arith) blank reread
      (write_cluster-reliable small_fs small_fs-IsGeometry small_fs-IsLaidOut ram-IsReliable 3 text
        linked)
      read_back last_byte (omega arith)
