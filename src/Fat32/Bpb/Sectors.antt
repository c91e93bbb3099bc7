-- ===== src/Fat32/Bpb/Sectors.antt =====
-- The loops over the sectors of a cluster.
use native.Mathlib.Decide.{dec_lt}
use hazle_os.Prelude.{
  ℕ, zero, suc, ◌+◌, ◌*◌, ◌/◌, ◌%◌, ◌^◌, ◌≤◌, ◌<◌, ◌≡◌, ◌≢◌, refl, true, arith, Buffer, u32, ◌⊎◌,
  inl, inr, ◌∙◌, ap, sym, none, some, Option-cases, IsBytes, ◌&&◌, leb, ltb, if◌then◌else◌,
}
use hazle_os.Device.{BlockDevice, IsReliable}
use hazle_os.Fat32.{Fs}
use hazle_os.Fat32.Table.Flush.{
  and_then-keeps, and_then-true, and_then_of_true, write_other, write_self, write-IsBytes,
}
use hazle_os.Fat32.Bpb.{place_sector, cut_sector, read_sectors, write_sectors}

module _ (B : BlockDevice) (fs : Fs) (size : fs.bytes_per_sector ≡ 512) where
  pub read_sectors-same :
      (lba n i : ℕ) (buffer : Buffer) (d : BlockDevice.Dev B)
      → BlockDevice.sector B (read_sectors B fs lba n i buffer d).1 ≡ BlockDevice.sector B d
  unfolding read_sectors
  read_sectors-same lba zero i buffer d = refl
  read_sectors-same lba (suc n) i buffer d =
      elim (Option-cases (BlockDevice.block_read B (u32 (lba + i)) d).0) [
        | inl failed ↦ rw (failed, read_sectors) (BlockDevice.read_same B (u32 (lba + i)) d)
        | inr (s, got) ↦
            rw (got, read_sectors)
              (read_sectors-same lba n (i + 1) _ _ ∙ BlockDevice.read_same B (u32 (lba + i)) d)
      ]

  -- The bytes of the sectors read are the medium's, the others are as they were.
  pub read_sectors-value :
      (lba n i : ℕ) (buffer out : Buffer) (d : BlockDevice.Dev B)
      → lba + (i + n) < 2 ^ 32
      → (read_sectors B fs lba n i buffer d).0 ≡ some out
      → (j : ℕ)
      → out j ≡ (
          if leb (i * 512) j && ltb j ((i + n) * 512)
          then BlockDevice.sector B d (lba + j / 512) (j % 512)
          else buffer j)
  unfolding read_sectors
  read_sectors-value lba zero i buffer out d fits done j = ground arith
  read_sectors-value lba (suc n) i buffer out d fits done j =
      elim (Option-cases (BlockDevice.block_read B (u32 (lba + i)) d).0) [
        | inl failed ↦
            let nothing : none ≡ some out = rw (failed, read_sectors) at done in absurd (cc nothing)
        | inr (s, got) ↦
            let same = BlockDevice.read_same B (u32 (lba + i)) d in
            let lba_i : u32 (lba + i) ≡ lba + i = omega arith in
            let bytes : s ≡ BlockDevice.sector B d (lba + i) =
              BlockDevice.read_value B (u32 (lba + i)) d s got
              ∙ ap (BlockDevice.sector B d) lba_i in
            rw
              (read_sectors-value lba n (i + 1) (place_sector buffer (i * fs.bytes_per_sector) s)
                out _ (omega arith) (rw (got, read_sectors) at done) j)
              (rw (same, size) (round s bytes))
      ]
    where
      round :
          (s : Buffer)
          → s ≡ BlockDevice.sector B d (lba + i)
          → (if leb ((i + 1) * 512) j && ltb j ((i + 1 + n) * 512)
              then BlockDevice.sector B d (lba + j / 512) (j % 512)
              else place_sector buffer (i * 512) s j)
            ≡ (if leb (i * 512) j && ltb j ((i + suc n) * 512)
                then BlockDevice.sector B d (lba + j / 512) (j % 512)
                else buffer j)
      round s bytes = rw bytes (ground arith)

  pub write_sectors-other :
      (lba n i m : ℕ) (buffer : Buffer) (d : BlockDevice.Dev B)
      → lba + (i + n) < 2 ^ 32
      → (m < lba + i) ⊎ (lba + (i + n) ≤ m)
      → BlockDevice.sector B (write_sectors B fs lba n i buffer d).1 m ≡ BlockDevice.sector B d m
  unfolding write_sectors
  write_sectors-other lba zero i m buffer d fits out = refl
  write_sectors-other lba (suc n) i m buffer d fits out =
      and_then-keeps (λ e. BlockDevice.sector B e m ≡ BlockDevice.sector B d m)
        (BlockDevice.block_write B (u32 (lba + i)) (cut_sector buffer (i * fs.bytes_per_sector)) d)
        (write_sectors B fs lba n (i + 1) buffer)
        (write_other B (u32 (lba + i)) m _ d (omega arith))
        λ e same. write_sectors-other lba n (i + 1) m buffer e (omega arith) (omega arith) ∙ same

  -- After a success each sector holds its 512 bytes of the buffer.
  pub write_sectors-value :
      (lba n i k : ℕ) (buffer : Buffer) (d : BlockDevice.Dev B)
      → lba + (i + n) < 2 ^ 32
      → (write_sectors B fs lba n i buffer d).0 ≡ true
      → i ≤ k
      → k < i + n
      → BlockDevice.sector B (write_sectors B fs lba n i buffer d).1 (lba + k)
        ≡ cut_sector buffer (k * 512)
  unfolding write_sectors
  write_sectors-value lba zero i k buffer d fits done lo hi = absurd (omega arith)
  write_sectors-value lba (suc n) i k buffer d fits done lo hi =
      let cut = cut_sector buffer (i * fs.bytes_per_sector) in
      let (written, rest) =
        and_then-true (BlockDevice.block_write B (u32 (lba + i)) cut d)
          (write_sectors B fs lba n (i + 1) buffer) done in
      elim (dec_lt i k) [
        | yes later ↦ rw rest (
            write_sectors-value lba n (i + 1) k buffer _ (omega arith)
              (ap (λ r. r.0) (sym rest) ∙ done) (omega arith) (omega arith))
        | no first ↦
            let same : k ≡ i = omega arith in
            let lba_i : lba + i ≡ u32 (lba + i) = omega arith in
            rw (same, rest)
              (write_sectors-other lba n (i + 1) (lba + i) buffer _ (omega arith) (omega arith)
                ∙ ap (BlockDevice.sector B (BlockDevice.block_write B (u32 (lba + i)) cut d).1)
                    lba_i
                ∙ write_self B (u32 (lba + i)) cut d written
                ∙ ap (λ n. cut_sector buffer (i * n)) size)
      ]

  pub write_sectors-IsBytes :
      (lba n i : ℕ) (buffer : Buffer) (d : BlockDevice.Dev B)
      → IsBytes buffer
      → ((m : ℕ) → IsBytes (BlockDevice.sector B d m))
      → (m : ℕ) → IsBytes (BlockDevice.sector B (write_sectors B fs lba n i buffer d).1 m)
  unfolding write_sectors
  write_sectors-IsBytes lba zero i buffer d hb hd = hd
  write_sectors-IsBytes lba (suc n) i buffer d hb hd =
      and_then-keeps (λ e. (m : ℕ) → IsBytes (BlockDevice.sector B e m))
        (BlockDevice.block_write B (u32 (lba + i)) (cut_sector buffer (i * fs.bytes_per_sector)) d)
        (write_sectors B fs lba n (i + 1) buffer)
        (write-IsBytes B _ _ d (λ j. hb (i * fs.bytes_per_sector + j)) hd)
        λ e he. write_sectors-IsBytes lba n (i + 1) buffer e hb he

  pub write_sectors-reliable :
      (r : IsReliable B) (lba n i : ℕ) (buffer : Buffer) (d : BlockDevice.Dev B)
      → (write_sectors B fs lba n i buffer d).0 ≡ true
  unfolding write_sectors
  write_sectors-reliable r lba zero i buffer d = refl
  write_sectors-reliable r lba (suc n) i buffer d =
      rw
        (and_then_of_true
          (BlockDevice.block_write B (u32 (lba + i)) (cut_sector buffer (i * fs.bytes_per_sector))
            d)
          (write_sectors B fs lba n (i + 1) buffer) (r.writes _ _ d))
        (write_sectors-reliable r lba n (i + 1) buffer _)

  pub read_sectors-reliable :
      (r : IsReliable B) (lba n i : ℕ) (buffer : Buffer) (d : BlockDevice.Dev B)
      → (read_sectors B fs lba n i buffer d).0 ≢ none
  unfolding read_sectors
  read_sectors-reliable r lba zero i buffer d = λ e. cc
  read_sectors-reliable r lba (suc n) i buffer d =
      elim (Option-cases (BlockDevice.block_read B (u32 (lba + i)) d).0) [
        | inl failed ↦ absurd (r.reads (u32 (lba + i)) d failed)
        | inr (s, got) ↦ rw (got, read_sectors) (read_sectors-reliable r lba n (i + 1) _ _)
      ]
