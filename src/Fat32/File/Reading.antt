-- ===== src/Fat32/File/Reading.antt =====
-- `fat32_read`: which bytes the loop copies, and where it leaves the file, round by round.
pub mod Loop
use native.Mathlib.Nat.{mod-lt}
use hazle_os.Prelude.{
  ℕ, zero, suc, ◌+◌, ◌-◌, ◌*◌, ◌%◌, ◌^◌, ◌≤◌, ◌<◌, ◌≡◌, refl, inl, inr, true, false, ◌&&◌, List, [],
  ◌∷◌, length, arith, leb, ltb, if◌then◌else◌, ==_refl, Bool-cases, lt→ltb, le→ltb, ltb→lt, ◌∙◌, ap,
  ap₂, Buffer, blank, some, u32, signed32,
}
use hazle_os.Device.{BlockDevice, IsReliable}
use hazle_os.Libc.Copy.{memcpy-value}
use hazle_os.Fat32.{Fs, Volume}
use hazle_os.Fat32.Table.{in_chain, get_fat_entry}
use hazle_os.Fat32.Table.Coherent.{IsGeometry, entry, IsCoherent}
use hazle_os.Fat32.Table.Alloc.{IsSized}
use hazle_os.Fat32.Table.Links.{Chain, stop, link, Chain-ext}
use hazle_os.Fat32.Table.Flush.{unchanged}
use hazle_os.Fat32.Table.Entry.{same_entry}
use hazle_os.Fat32.Bpb.{read_cluster}
use hazle_os.Fat32.Bpb.Layout.{IsLaidOut, IsData}
use hazle_os.Fat32.Bpb.Links.{is_eoc-in_chain, in_chain-leb}
use hazle_os.Fat32.File.{OpenFile, Transfer, read_loop}
use hazle_os.Fat32.File.Stream.{
  AreData, cluster_byte, stream, IsUntouched, cluster_at, IsUntouched-trans, stream-same,
}
use hazle_os.Fat32.File.Rounds.{
  suc_mul, some_left, boundary, room, moved, filled, data-InTable, round, last_round, full_round,
}

module _ {B : BlockDevice} (fs : Fs) (g : IsGeometry fs) (sized : IsSized fs) (l : IsLaidOut fs)
    (r : IsReliable B) where
  -- What the loop has done when it ends with `size` bytes: byte `j` of the destination is the byte
  -- of the chain at that distance, and the file stands in the cluster of the last byte read.
  pub record IsRead (v w : Volume B) (f : OpenFile) (clusters : List ℕ) (size done : ℕ)
      (out : Buffer) (t : Transfer) : Type 0 where
    pub untouched : IsUntouched fs v w
    pub result : t.result ≡ signed32 size
    pub bytes :
        (j : ℕ)
        → t.bytes j ≡ (
            if leb done j && ltb j size
            then stream fs v clusters (f.position % fs.bytes_per_cluster + (j - done))
            else out j)
    pub file : t.file ≡ record f {
      position = f.position + (size - done);
      current_cluster =
          if ltb done size
          then cluster_at fs clusters (f.position % fs.bytes_per_cluster + (size - done) - 1)
          else f.current_cluster;
    }

  pub IsUntouched-refl : (v : Volume B) → IsCoherent fs v → IsUntouched fs v v
  IsUntouched-refl v coherent = record {
    same_table = unchanged fs g v coherent;
    same_data = λ m past. refl;
  }

  -- With every byte read the loop ends.
  pub finished :
      (fuel size : ℕ) (out : Buffer) (f : OpenFile) (v : Volume B)
      → 0 < fuel
      → read_loop fs fuel size size out f v
        ≡ some (record { result = signed32 size; bytes = out; file = f }, v)
  unfolding read_loop
  finished zero size out f v h = absurd (omega arith)
  finished (suc fuel) size out f v h =
      let no_more : ltb size size ≡ false = ground arith in rw (no_more, read_loop) refl

  pub leads_on :
      {next : ℕ → ℕ} {c : ℕ} {clusters : List ℕ}
      → Chain next c clusters
      → 0 < length clusters
      → in_chain c ≡ true
  leads_on (stop e) h = absurd (omega arith)
  leads_on (link e rest) h = e

  module _ (size done : ℕ) (out b : Buffer) (f : OpenFile) (v : Volume B) (c : ℕ)
      (clusters : List ℕ) (below : done < size) (cluster_size : 0 < fs.bytes_per_cluster)
      (bytes_of : (j : ℕ) → j < fs.bytes_per_cluster → b j ≡ cluster_byte fs v c j) where
    -- The bytes that one round copies.
    round_bytes :
        (count j : ℕ)
        → count ≤ room fs f
        → filled fs done count out f b j ≡ (
            if leb done j && ltb j (done + count)
            then stream fs v (c ∷ clusters) (f.position % fs.bytes_per_cluster + (j - done))
            else out j)
    round_bytes count j fits =
        memcpy-value out done b (f.position % fs.bytes_per_cluster) count j
        ∙ elim (Bool-cases (leb done j && ltb j (done + count))) [
          | inr outside ↦ rw outside refl
          | inl inside ↦
              let o = f.position % fs.bytes_per_cluster in
              let near : o + (j - done) < fs.bytes_per_cluster =
                ground (arith, mod-lt f.position cluster_size) in
              rw (inside, lt→ltb (o + (j - done)) fs.bytes_per_cluster near)
                (bytes_of (o + (j - done)) near)
        ]

    pub last-IsRead :
        (w : Volume B)
        → size - done ≤ room fs f
        → f.current_cluster ≡ c
        → f.position + (size - done) < 2 ^ 32
        → IsUntouched fs v w
        → IsRead v w f (c ∷ clusters) size done out (record {
          result = signed32 size;
          bytes = filled fs done (size - done) out f b;
          file = moved f (size - done);
        })
    last-IsRead w fits here small same = record {
      untouched = same;
      result = refl;
      bytes = λ j.
          round_bytes (size - done) j fits
          ∙ ap
              (λ n.
                if leb done j && ltb j n
                then stream fs v (c ∷ clusters) (f.position % fs.bytes_per_cluster + (j - done))
                else out j)
              total;
      file =
          let position : u32 (f.position + (size - done)) ≡ f.position + (size - done) =
            omega arith in
          let inside : ltb (f.position % fs.bytes_per_cluster + (size - done) - 1)
                fs.bytes_per_cluster
              ≡ true =
            lt→ltb _ _ (omega (arith, mod-lt f.position cluster_size)) in
          rw (position, lt→ltb done size below, inside)
            (ap (λ k. record f { position = f.position + (size - done); current_cluster = k })
              here);
    }
      where
        total : done + (size - done) ≡ size
        total = omega arith

    pub full-IsRead :
        (w x : Volume B) (t : Transfer)
        → room fs f < size - done
        → f.position + (size - done) < 2 ^ 32
        → IsUntouched fs v w
        → AreData fs clusters
        → IsRead w x
            (record (moved f (room fs f)) { current_cluster = entry fs v c })
            clusters
            size
            (done + room fs f)
            (filled fs done (room fs f) out f b)
            t
        → IsRead v x f (c ∷ clusters) size done out t
    full-IsRead w x t longer small same are_data rest = record {
      untouched = IsUntouched-trans fs g l same rest.untouched;
      result = rest.result;
      bytes = λ j. rest.bytes j ∙ joined j;
      file =
          rest.file
          ∙ ap₂ (λ p k. record f { position = p; current_cluster = k }) (omega (arith, position))
              cluster;
    }
      where
        o : ℕ
        o = f.position % fs.bytes_per_cluster

        position : u32 (f.position + room fs f) ≡ f.position + room fs f
        position = omega arith

        start : u32 (f.position + room fs f) % fs.bytes_per_cluster ≡ 0
        start =
            ap (λ n. n % fs.bytes_per_cluster) position
            ∙ boundary f.position fs.bytes_per_cluster cluster_size

        cluster :
            (if ltb (done + room fs f) size
              then cluster_at fs clusters (
                  u32 (f.position + room fs f) % fs.bytes_per_cluster
                  + (size - (done + room fs f))
                  - 1)
              else entry fs v c)
            ≡ (if ltb done size
                then cluster_at fs
                    (c ∷ clusters)
                    (f.position % fs.bytes_per_cluster + (size - done) - 1)
                else f.current_cluster)
        cluster =
            let past : ltb (f.position % fs.bytes_per_cluster + (size - done) - 1)
                  fs.bytes_per_cluster
                ≡ false =
              le→ltb _ _ (omega (arith, mod-lt f.position cluster_size)) in
            rw (lt→ltb (done + room fs f) size (omega arith), lt→ltb done size below, past)
              (ap (cluster_at fs clusters) (omega (arith, start, mod-lt f.position cluster_size)))

        joined :
            (j : ℕ)
            → (if leb (done + room fs f) j && ltb j size
                then stream fs w clusters
                    (u32 (f.position + room fs f) % fs.bytes_per_cluster + (j - (done + room fs f)))
                else filled fs done (room fs f) out f b j)
              ≡ (if leb done j && ltb j size
                  then stream fs v (c ∷ clusters) (f.position % fs.bytes_per_cluster + (j - done))
                  else out j)
        joined j = elim (Bool-cases (leb (done + room fs f) j && ltb j size)) [
          | inl later ↦
              let inside : (leb done j && ltb j size) ≡ true = ground arith in
              let past : ltb (f.position % fs.bytes_per_cluster + (j - done)) fs.bytes_per_cluster
                  ≡ false =
                ground (arith, mod-lt f.position cluster_size) in
              rw (later, inside, past)
                (stream-same fs g l clusters _ same are_data
                  ∙ ap (stream fs v clusters)
                      (ground (arith, start, mod-lt f.position cluster_size)))
          | inr sooner ↦
              let same_test : (leb done j && ltb j (done + room fs f))
                  ≡ (leb done j && ltb j size) =
                ground arith in
              rw sooner (
                round_bytes (room fs f) j (omega arith)
                ∙ ap
                    (λ test.
                      if test
                      then stream fs v (c ∷ clusters)
                          (f.position % fs.bytes_per_cluster + (j - done))
                      else out j)
                    same_test)
        ]
