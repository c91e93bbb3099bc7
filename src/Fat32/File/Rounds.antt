-- ===== src/Fat32/File/Rounds.antt =====
-- One round of the loop of `fat32_read`.
use native.Mathlib.Nat.{mod-lt, mod-add-mod, mod_self}
use hazle_os.Prelude.{
  ℕ, zero, suc, ◌+◌, ◌-◌, ◌*◌, ◌%◌, ◌^◌, ◌≤◌, ◌<◌, ◌≡◌, refl, inl, inr, true, false, ◌&&◌, arith,
  leb, ltb, if◌then◌else◌, ◌==◌, Option-cases, lt→ltb, le→ltb, ◌∙◌, ap, sym, Buffer, blank, some,
  u32, sub32,
}
use hazle_os.Device.{BlockDevice, IsReliable}
use hazle_os.Libc.{memcpy}
use hazle_os.Fat32.{Fs, Volume, overflows}
use hazle_os.Fat32.Table.{get_fat_entry}
use hazle_os.Fat32.Table.Coherent.{IsGeometry, InTable, entry, IsCoherent}
use hazle_os.Fat32.Table.Alloc.{IsSized}
use hazle_os.Fat32.Table.Data.{get_fat_entry-data}
use hazle_os.Fat32.Table.Entry.{get_fat_entry-entry, get_fat_entry-reliable}
use hazle_os.Fat32.Bpb.{read_cluster, is_eoc}
use hazle_os.Fat32.Bpb.Layout.{IsLaidOut, IsData}
use hazle_os.Fat32.Bpb.Transfer.{
  read_cluster-value, read_cluster-IsSameTable, read_cluster-reliable,
}
use hazle_os.Fat32.File.{OpenFile, chunk, read_loop}
use hazle_os.Fat32.File.Stream.{cluster_byte, IsUntouched, IsUntouched-trans, cluster_byte-same}

pub suc_mul : (n w : ℕ) → suc n * w ≡ w + n * w
suc_mul n w = grind arith

pub some_left : (n w : ℕ) → 0 < n * w → 0 < n
some_left zero w h = absurd (omega arith)
some_left (suc n) w h = omega arith

pub boundary : (p n : ℕ) → 0 < n → (p + (n - p % n)) % n ≡ 0
boundary p n h =
    let inside : p % n < n = mod-lt p h in
    sym (mod-add-mod p n (n - p % n)) ∙ ap (λ m. m % n) (omega arith) ∙ mod_self n

-- How far the cluster reaches from the file's position.
abbrev pub room : Fs → OpenFile → ℕ
room fs f = fs.bytes_per_cluster - f.position % fs.bytes_per_cluster

-- The file and the destination after a round of `count` bytes.
abbrev pub moved : OpenFile → ℕ → OpenFile
moved f count = record f { position = u32 (f.position + count) }

abbrev pub filled : Fs → (done count : ℕ) (out : Buffer) (f : OpenFile) (block : Buffer) → Buffer
filled fs done count out f block = memcpy out done block (f.position % fs.bytes_per_cluster) count

module _ {B : BlockDevice} (fs : Fs) (g : IsGeometry fs) (sized : IsSized fs) (l : IsLaidOut fs)
    (r : IsReliable B) where
  pub data-InTable : (c : ℕ) → IsData fs c → InTable fs c
  data-InTable c h = omega (arith, sized)

  -- The cluster's bytes, as one round of the loop gets them.
  pub record Round (v : Volume B) (c : ℕ) : Type 0 where
    pub block : Buffer
    pub linked : (get_fat_entry fs c v).0 ≡ entry fs v c
    pub got : (read_cluster fs c blank (get_fat_entry fs c v).1).0 ≡ some block
    pub untouched : IsUntouched fs v (read_cluster fs c blank (get_fat_entry fs c v).1).1
    pub bytes : (j : ℕ) → j < fs.bytes_per_cluster → block j ≡ cluster_byte fs v c j

  pub round : (c : ℕ) (v : Volume B) → IsData fs c → IsCoherent fs v → Round v c
  round c v h coherent =
      let w = (get_fat_entry fs c v).1 in
      let in_table = data-InTable c h in
      let first : IsUntouched fs v w = record {
        same_table = (get_fat_entry-entry fs g c v in_table coherent).0;
        same_data = λ m past. get_fat_entry-data fs g v coherent m past c;
      } in
      let value = read_cluster-value fs g l c blank w h in
      let second : IsUntouched fs w (read_cluster fs c blank w).1 = record {
        same_table = read_cluster-IsSameTable fs g l c blank w h first.same_table.coherent;
        same_data = λ m past. ap (λ (s : ℕ → Buffer). s m) value.0;
      } in
      elim (Option-cases (read_cluster fs c blank w).0) [
        | inl failed ↦ absurd (read_cluster-reliable fs g l r c blank w failed)
        | inr (b, got) ↦ record {
          block = b;
          linked = get_fat_entry-reliable fs g r c v in_table coherent;
          got = got;
          untouched = IsUntouched-trans fs g l first second;
          bytes = λ j inside.
              value.1 b got j
              ∙ rw (lt→ltb j (fs.sectors_per_cluster * 512) (omega (arith, l.buffer_size)))
                  (cluster_byte-same fs g l c j first h inside);
        }
      ]

  module _ (fuel size done : ℕ) (out : Buffer) (f : OpenFile) (v : Volume B) (b : Buffer)
      (below : done < size) (word : size < 2 ^ 32) (small : f.position + (size - done) < 2 ^ 32)
      (cluster_small : fs.bytes_per_cluster < 2 ^ 32) (cluster_size : 0 < fs.bytes_per_cluster)
      (linked : leb 2 f.current_cluster ≡ true) (fits_array : overflows fs ≡ false)
      (got : (read_cluster fs f.current_cluster blank (get_fat_entry fs f.current_cluster v).1).0
        ≡ some b) where
    count_is :
        chunk fs f.position (sub32 size done)
        ≡ (if ltb (room fs f) (size - done) then room fs f else size - done)
    unfolding chunk
    count_is =
        let wanted : sub32 size done ≡ size - done = omega arith in
        let inside : f.position % fs.bytes_per_cluster < fs.bytes_per_cluster =
          mod-lt f.position cluster_size in
        let fits : sub32 fs.bytes_per_cluster (f.position % fs.bytes_per_cluster) ≡ room fs f =
          omega arith in
        rw (wanted, fits) refl

    -- A round that ends within the cluster, or with it, is the last.
    pub last_round :
        size - done ≤ room fs f
        → read_loop fs (suc fuel) size done out f v
          ≡ read_loop fs fuel size size
              (filled fs done (size - done) out f b)
              (moved f (size - done))
              (read_cluster fs f.current_cluster blank (get_fat_entry fs f.current_cluster v).1).1
    unfolding read_loop
    last_round fits =
        let count : chunk fs f.position (sub32 size done) ≡ size - done =
          count_is ∙ rw (le→ltb (room fs f) (size - done) fits) refl in
        let total : u32 (done + (size - done)) ≡ size = omega arith in
        let no_more : (((moved f (size - done)).position % fs.bytes_per_cluster == 0)
              && ltb size size)
            ≡ false =
          ground arith in
        rw (lt→ltb done size below, linked, fits_array, got, count, total, no_more, read_loop)
          (rw (count, total) refl)

    -- A round that fills the rest of its cluster, and leads on to the next.
    pub full_round :
        room fs f < size - done
        → is_eoc (get_fat_entry fs f.current_cluster v).0 ≡ false
        → read_loop fs (suc fuel) size done out f v
          ≡ read_loop fs fuel size
              (done + room fs f)
              (filled fs done (room fs f) out f b)
              (record (moved f (room fs f)) {
                current_cluster = (get_fat_entry fs f.current_cluster v).0;
              })
              (read_cluster fs f.current_cluster blank (get_fat_entry fs f.current_cluster v).1).1
    unfolding read_loop
    full_round longer leads =
        let position_fits : u32 (f.position + room fs f) ≡ f.position + room fs f = omega arith in
        let count : chunk fs f.position (sub32 size done) ≡ room fs f =
          count_is ∙ rw (lt→ltb (room fs f) (size - done) longer) refl in
        let total : u32 (done + room fs f) ≡ done + room fs f = omega arith in
        let more : (((moved f (room fs f)).position % fs.bytes_per_cluster == 0)
              && ltb (done + room fs f) size)
            ≡ true =
          let still : ltb (done + room fs f) size ≡ true =
            lt→ltb (done + room fs f) size (omega arith) in
          let full : u32 (f.position + room fs f) % fs.bytes_per_cluster ≡ 0 =
            ap (λ n. n % fs.bytes_per_cluster) position_fits
            ∙ boundary f.position fs.bytes_per_cluster cluster_size in
          rw (full, still) refl in
        rw (lt→ltb done size below, linked, fits_array, got, count, total, more, leads, read_loop)
          (rw (count, total) refl)
