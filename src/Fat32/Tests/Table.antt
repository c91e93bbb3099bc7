-- ===== src/Fat32/Tests/Table.antt =====
-- The theorems on drivers/fat32/fat.c at concrete volumes.
use hazle_os.Prelude.{
  ℕ, ◌≡◌, refl, true, false, some, none, arith, inl, if◌then◌else◌, ◌==◌, [], ◌∷◌, ◌⊎◌, ◌<◌, ◌+◌,
  ◌*◌, get32, set32,
}
use hazle_os.Device.{BlockDevice}
use hazle_os.Fat32.{Volume, free_cluster, bad_cluster}
use hazle_os.Fat32.Table.{
  flush_cache, get_fat_entry, set_fat_entry, allocate_cluster, count_free_clusters, free_chain,
  chain_length, merge_entry, in_chain,
}
use hazle_os.Fat32.Table.Coherent.{IsCoherent, IsSameTable, InTable, entry, raw_entry}
use hazle_os.Fat32.Table.Flush.{flush_cache-mirrors}
use hazle_os.Fat32.Table.Entry.{flush_cache-reliable, get_fat_entry-entry, set_fat_entry-entry}
use hazle_os.Fat32.Table.Alloc.{
  Allocated, allocate_cluster-Allocated, count_free_clusters-count, free_count,
}
use hazle_os.Fat32.Table.Chain.{
  free_chain-frees, free_chain-total, chain_length-length, chain_length-diverges,
}
use hazle_os.Fat32.Table.Links.{Chain, stop, link, contains}
use hazle_os.Fat32.Tests.{
  ram, ram-IsReliable, small_fs, small_fs-IsGeometry, small_fs-IsSized, two_links, circle, unread,
  unread-IsCoherent, two_links-IsBytes, circle-IsBytes,
}

abbrev linked : Volume ram
linked = unread two_links

linked-IsCoherent : IsCoherent small_fs linked
linked-IsCoherent = unread-IsCoherent two_links two_links-IsBytes

get_fat_entry-entry_example :
    IsSameTable small_fs linked (get_fat_entry small_fs 2 linked).1
    × (((get_fat_entry small_fs 2 linked).0 ≡ entry small_fs linked 2)
        ⊎ ((get_fat_entry small_fs 2 linked).0 ≡ bad_cluster))
get_fat_entry-entry_example =
    get_fat_entry-entry small_fs small_fs-IsGeometry 2 linked (omega arith) linked-IsCoherent

set_fat_entry-entry_example :
    (((set_fat_entry small_fs 3 4 linked).0 ≡ false)
      × IsSameTable small_fs linked (set_fat_entry small_fs 3 4 linked).1)
    ⊎ (((set_fat_entry small_fs 3 4 linked).0 ≡ true)
        × IsCoherent small_fs (set_fat_entry small_fs 3 4 linked).1
        × ((k : ℕ)
            → InTable small_fs k
            → raw_entry small_fs (set_fat_entry small_fs 3 4 linked).1 k ≡ (
                if k == 3
                then merge_entry (raw_entry small_fs linked 3) 4
                else raw_entry small_fs linked k)))
set_fat_entry-entry_example =
    set_fat_entry-entry small_fs small_fs-IsGeometry 3 linked (omega arith) linked-IsCoherent 4

allocate_cluster-Allocated_example :
    Allocated small_fs small_fs-IsGeometry ram-IsReliable linked (allocate_cluster small_fs linked)
allocate_cluster-Allocated_example =
    allocate_cluster-Allocated small_fs small_fs-IsGeometry ram-IsReliable linked small_fs-IsSized
      linked-IsCoherent

count_free_clusters-count_example :
    IsSameTable small_fs linked (count_free_clusters small_fs linked).1
    × ((count_free_clusters small_fs linked).0 ≡ free_count (entry small_fs linked) 2 8)
count_free_clusters-count_example =
    count_free_clusters-count small_fs small_fs-IsGeometry ram-IsReliable linked small_fs-IsSized
      linked-IsCoherent

linked-Chain : Chain (entry small_fs linked) 2 (2 ∷ 3 ∷ [])
unfolding get32 set32
linked-Chain = link refl (link refl (stop refl))

linked-InTable : (k : ℕ) → contains k (2 ∷ 3 ∷ []) ≡ true → InTable small_fs k
linked-InTable k h = ground arith

free_chain-frees_example :
    (w : Volume ram) × (free_chain small_fs 3 2 linked ≡ some (true, w))
    × IsCoherent small_fs w
    × ((k : ℕ)
        → InTable small_fs k
        → entry small_fs w k
          ≡ (if contains k (2 ∷ 3 ∷ []) then free_cluster else entry small_fs linked k))
free_chain-frees_example =
    free_chain-frees small_fs small_fs-IsGeometry ram-IsReliable 3 linked linked-IsCoherent
      linked-Chain linked-InTable (omega arith)

chain_length-length_example :
    (w : Volume ram) × (chain_length small_fs 3 2 0 linked ≡ some (2, w))
    × IsSameTable small_fs linked w
chain_length-length_example =
    chain_length-length small_fs small_fs-IsGeometry ram-IsReliable 3 0 linked linked-IsCoherent
      linked-Chain linked-InTable (omega arith) (omega arith)

abbrev looped : Volume ram
looped = unread circle

looped-IsCoherent : IsCoherent small_fs looped
looped-IsCoherent = unread-IsCoherent circle circle-IsBytes

looped-closed :
    (k : ℕ)
    → InTable small_fs k
    → in_chain (entry small_fs looped k) ≡ true
    → InTable small_fs (entry small_fs looped k)
unfolding get32
looped-closed k h e = ground arith

free_chain-total_example : (w : Volume ram) × (free_chain small_fs 130 5 looped ≡ some (true, w))
free_chain-total_example =
    free_chain-total small_fs small_fs-IsGeometry ram-IsReliable 5 looped looped-IsCoherent
      (λ e. omega arith) looped-closed

chain_length-diverges_example : chain_length small_fs 1000 5 0 looped ≡ none
chain_length-diverges_example =
    chain_length-diverges small_fs small_fs-IsGeometry ram-IsReliable (λ k. k ≡ 5) 1000 5 0 looped
      looped-IsCoherent (λ k e. rw e (omega arith, refl, unfold get32 in refl)) refl

abbrev dirty : Volume ram
dirty = record (unread two_links) {
  fat_sector_buffer = circle;
  cached_fat_sector = 0;
  fat_cache_dirty = true;
}

dirty-IsCoherent : IsCoherent small_fs dirty
dirty-IsCoherent = record {
  cached = inl (omega arith);
  clean = λ e h j. absurd (cc);
  buffer_bytes = circle-IsBytes;
  medium_bytes = linked-IsCoherent.medium_bytes;
}

flush_cache-mirrors_example :
    ((flush_cache small_fs dirty).1.fat_cache_dirty ≡ false)
    × ((j : ℕ)
        → j < 2
        → BlockDevice.sector ram (flush_cache small_fs dirty).1.dev (2 + j * 1 + 0) ≡ circle)
flush_cache-mirrors_example =
    flush_cache-mirrors small_fs small_fs-IsGeometry dirty dirty-IsCoherent
      (flush_cache-reliable small_fs small_fs-IsGeometry ram-IsReliable dirty) (omega arith) refl
