-- ===== src/Fat32/File/Reading/Loop.antt =====
-- `fat32_read`: the loop as a whole.
use native.Mathlib.Nat.{mod-lt}
use hazle_os.Prelude.{
  ℕ, zero, suc, ◌+◌, ◌-◌, ◌*◌, ◌%◌, ◌^◌, ◌≤◌, ◌<◌, ◌≡◌, refl, inl, inr, true, false, ◌&&◌, List, [],
  ◌∷◌, length, arith, leb, ltb, ==_refl, Bool-cases, ltb→lt, ◌∙◌, ap, Buffer, blank, some, u32,
  signed32,
}
use hazle_os.Device.{BlockDevice, IsReliable}
use hazle_os.Fat32.{Fs, Volume, overflows}
use hazle_os.Fat32.Table.{get_fat_entry}
use hazle_os.Fat32.Table.Coherent.{IsGeometry, entry, IsCoherent}
use hazle_os.Fat32.Table.Alloc.{IsSized}
use hazle_os.Fat32.Table.Links.{Chain, stop, link, Chain-ext}
use hazle_os.Fat32.Table.Entry.{same_entry}
use hazle_os.Fat32.Bpb.{read_cluster}
use hazle_os.Fat32.Bpb.Layout.{IsLaidOut, IsData}
use hazle_os.Fat32.Bpb.Links.{is_eoc-in_chain, in_chain-leb}
use hazle_os.Fat32.File.{OpenFile, Transfer, read_loop}
use hazle_os.Fat32.File.Stream.{AreData, IsUntouched}
use hazle_os.Fat32.File.Rounds.{
  suc_mul, some_left, boundary, room, moved, filled, data-InTable, round, last_round, full_round,
}
use hazle_os.Fat32.File.Reading.{
  IsRead, IsUntouched-refl, finished, leads_on, last-IsRead, full-IsRead,
}

module _ {B : BlockDevice} (fs : Fs) (g : IsGeometry fs) (sized : IsSized fs) (l : IsLaidOut fs)
    (r : IsReliable B) where
  -- Transport of a chain to a volume with the same entries.
  pub Chain-same :
      {v w : Volume B} {c : ℕ} {clusters : List ℕ}
      → IsUntouched fs v w
      → AreData fs clusters
      → Chain (entry fs v) c clusters
      → Chain (entry fs w) c clusters
  Chain-same same are_data =
      Chain-ext
        (λ k h. same_entry fs g k same.same_table (data-InTable fs g sized l r k (are_data k h)))

  bpc_small : fs.bytes_per_cluster < 2 ^ 32
  bpc_small = omega (arith, l.buffer_size, l.cluster_small)

  bpc_pos : 0 < fs.bytes_per_cluster
  bpc_pos = omega (arith, l.buffer_size, l.cluster_size)

  pub idle-IsRead :
      (size : ℕ) (out : Buffer) (f : OpenFile) (v : Volume B) (clusters : List ℕ)
      → IsCoherent fs v
      → IsRead fs g sized l r v v f clusters size size out
          (record { result = signed32 size; bytes = out; file = f })
  idle-IsRead size out f v clusters coherent =
      let no_more : ltb size size ≡ false = ground arith in
      record {
        untouched = IsUntouched-refl fs g sized l r v coherent;
        result = refl;
        bytes =
            λ j. let outside : (leb size j && ltb j size) ≡ false = ground arith in rw outside refl;
        file = rw no_more (ap (λ p. record f { position = p }) (omega arith));
      }

  nothing_left :
      (fuel size : ℕ) (out : Buffer) (f : OpenFile) (v : Volume B) (clusters : List ℕ)
      → IsCoherent fs v
      → (t : Transfer) × (w : Volume B) × (read_loop fs (suc fuel) size size out f v ≡ some (t, w))
        × IsRead fs g sized l r v w f clusters size size out t
  nothing_left fuel size out f v clusters coherent = (
    record { result = signed32 size; bytes = out; file = f },
    v,
    finished fs g sized l r (suc fuel) size out f v (omega arith),
    idle-IsRead size out f v clusters coherent,
  )

  -- The loop of `fat32_read` from any position of a file whose chain holds what is asked for.
  pub read_loop-IsRead :
      (fuel size done : ℕ) (out : Buffer) (f : OpenFile) (v : Volume B) {c : ℕ} {clusters : List ℕ}
      → IsCoherent fs v
      → f.current_cluster ≡ c
      → Chain (entry fs v) c clusters
      → AreData fs clusters
      → done ≤ size
      → size < 2 ^ 32
      → f.position + (size - done) < 2 ^ 32
      → f.position % fs.bytes_per_cluster + (size - done) ≤ length clusters * fs.bytes_per_cluster
      → size - done < fuel
      → overflows fs ≡ false
      → (t : Transfer) × (w : Volume B) × (read_loop fs fuel size done out f v ≡ some (t, w))
        × IsRead fs g sized l r v w f clusters size done out t
  read_loop-IsRead zero size done out f v coherent here chain are_data le word small holds enough
        fits_array =
      absurd (omega arith)
  read_loop-IsRead (suc fuel) size done out f v coherent here (stop e) are_data le word small holds
        enough fits_array =
      let same : done ≡ size = omega arith in rw same (nothing_left fuel size out f v [] coherent)
  read_loop-IsRead (suc fuel) size done out f v coherent here (link {c} {xs} e rest) are_data le
        word small holds enough fits_array =
      elim (Bool-cases (ltb done size)) [
        | inr ended ↦
            let same : done ≡ size = ground arith in
            rw same (nothing_left fuel size out f v (c ∷ xs) coherent)
        | inl more ↦
            let below : done < size = ltb→lt done size more in
            let is_data : IsData fs f.current_cluster =
              rw here (are_data c (rw (==_refl c) refl)) in
            let one = round fs g sized l r f.current_cluster v is_data coherent in
            let bytes = rw here at one.bytes in
            let linked : leb 2 f.current_cluster ≡ true = rw here (in_chain-leb c e) in
            let after =
              (read_cluster fs f.current_cluster blank
                (get_fat_entry fs f.current_cluster v).1).1 in
            elim (Bool-cases (ltb (room fs f) (size - done))) [
              | inr short ↦
                  let fits : size - done ≤ room fs f = ground arith in
                  (
                    _,
                    after,
                    last_round fs g sized l r fuel size done out f v one.block below word small
                          bpc_small bpc_pos linked fits_array one.got fits
                        ∙ finished fs g sized l r fuel size
                            (filled fs done (size - done) out f one.block) (moved f (size - done))
                            after (omega arith),
                    last-IsRead fs g sized l r size done out one.block f v c xs below bpc_pos bytes
                        after fits here small one.untouched,
                  )
              | inl long ↦
                  let longer : room fs f < size - done = ltb→lt (room fs f) (size - done) long in
                  let next : (get_fat_entry fs f.current_cluster v).0 ≡ entry fs v c =
                    one.linked ∙ ap (entry fs v) here in
                  let nonempty : 0 < length xs = some_left (length xs) fs.bytes_per_cluster (
                    omega (
                      arith,
                      suc_mul (length xs) fs.bytes_per_cluster,
                      holds,
                      mod-lt f.position bpc_pos,
                    )) in
                  let tail : AreData fs xs = λ k h. are_data k (ground arith) in
                  let position : u32 (f.position + room fs f) ≡ f.position + room fs f =
                    omega arith in
                  let start : u32 (f.position + room fs f) % fs.bytes_per_cluster ≡ 0 =
                    ap (λ n. n % fs.bytes_per_cluster) position
                    ∙ boundary f.position fs.bytes_per_cluster bpc_pos in
                  let more_room : 0 < room fs f = omega (arith, mod-lt f.position bpc_pos) in
                  let split = suc_mul (length xs) fs.bytes_per_cluster in
                  let (t, w, ran, did) =
                    read_loop-IsRead fuel size (done + room fs f)
                      (filled fs done (room fs f) out f one.block)
                      (record (moved f (room fs f)) { current_cluster = entry fs v c }) after
                      one.untouched.same_table.coherent refl (Chain-same one.untouched tail rest)
                      tail (omega arith) word (omega (arith, position))
                      (omega (arith, start, split, holds, mod-lt f.position bpc_pos))
                      (omega (arith, more_room)) fits_array in
                  (
                    t,
                    w,
                    full_round fs g sized l r fuel size done out f v one.block below word small
                          bpc_small bpc_pos linked fits_array one.got longer
                          (rw next (
                            is_eoc-in_chain (entry fs v c) (leads_on fs g sized l r rest nonempty)))
                        ∙ ap
                            (λ k.
                              read_loop fs fuel size (done + room fs f)
                                (filled fs done (room fs f) out f one.block)
                                (record (moved f (room fs f)) { current_cluster = k }) after)
                            next
                        ∙ ran,
                    full-IsRead fs g sized l r size done out one.block f v c xs below bpc_pos bytes
                        after w t longer small one.untouched tail did,
                  )
            ]
      ]
