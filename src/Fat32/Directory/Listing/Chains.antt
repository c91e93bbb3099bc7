-- ===== src/Fat32/Directory/Listing/Chains.antt =====
-- `fat32_read_dir` along the chain of a directory.
use hazle_os.Prelude.{
  All, ℕ, ◌*◌, ◌<◌, ◌≡◌, Bool, false, List, [], ◌∷◌, ◌++◌, ltb, if◌then◌else◌, some, Buffer, blank,
}
use hazle_os.Device.{BlockDevice, IsReliable}
use hazle_os.Fat32.{Fs, Volume, overflows}
use hazle_os.Fat32.Table.{get_fat_entry}
use hazle_os.Fat32.Table.Coherent.{IsGeometry, entry}
use hazle_os.Fat32.Table.Alloc.{IsSized}
use hazle_os.Fat32.Bpb.{read_cluster}
use hazle_os.Fat32.Bpb.Layout.{IsLaidOut}
use hazle_os.Fat32.File.Stream.{cluster_byte, IsUntouched}
use hazle_os.Fat32.Directory.Entry.{FileInfo}
use hazle_os.Fat32.Directory.Walk.{entries_per_cluster}
use hazle_os.Fat32.Directory.Listing.{Progress, list_cluster}
use hazle_os.Fat32.Directory.Listing.Overrun.{IsPlaced}
use hazle_os.Fat32.Directory.Listing.Visible.{visible, has_end}

module _ {B : BlockDevice} (fs : Fs) where
  -- The bytes of a cluster, as a buffer that is blank behind it.
  abbrev pub content : Volume B → ℕ → Buffer
  content v c j = if ltb j (fs.sectors_per_cluster * 512) then cluster_byte fs v c j else 0

  -- The visible entries of the clusters, up to the mark that ends the directory.
  pub listing : Volume B → List ℕ → List FileInfo
  listing v [] = []
  listing v (c ∷ clusters) =
      let rest = listing v clusters in
      visible (entries_per_cluster fs) 0 (content v c)
      ++ (if has_end (entries_per_cluster fs) 0 (content v c) then [] else rest)

-- What is listed behind a cluster: nothing, if the end was met in it.
abbrev behind : Bool → List FileInfo → List FileInfo
behind met rest = if met then [] else rest

module _ {B : BlockDevice} (fs : Fs) (g : IsGeometry fs) (sized : IsSized fs) (l : IsLaidOut fs)
    (r : IsReliable B) where
  -- The cluster's bytes and its link, as a round of the loop gets them.
  record Round (v : Volume B) (c : ℕ) : Type 0 where
    got : (read_cluster fs c blank v).0 ≡ some (content fs v c)
    linked : (get_fat_entry fs c (read_cluster fs c blank v).1).0 ≡ entry fs v c
    read : IsUntouched fs v (read_cluster fs c blank v).1
    untouched : IsUntouched fs v (get_fat_entry fs c (read_cluster fs c blank v).1).1

  module _ (max fuel c : ℕ) (p : Progress) (v : Volume B) (inside : ltb c 2 ≡ false)
      (fits_array : overflows fs ≡ false) (one : Round v c) where
    -- The entries after the cluster, and the volume after the read and after the link.
    abbrev listed_here : Bool × Progress
    listed_here = list_cluster max (entries_per_cluster fs) 0 (content fs v c) p

    abbrev after_read : Volume B
    after_read = (read_cluster fs c blank v).1

    abbrev after_link : Volume B
    after_link = (get_fat_entry fs c after_read).1

  abbrev AllPlaced : Buffer → Type 0
  AllPlaced b = (i : ℕ) → i < entries_per_cluster fs → IsPlaced b (i * 32)

  -- The parts of long names in the directory all have an order for which there is room.
  abbrev pub HasPlacedNames : Volume B → List ℕ → Type 0
  HasPlacedNames v = All (λ c. AllPlaced (content fs v c))
