-- ===== src/Fat32/File/Reads.antt =====
-- `fat32_read` on an open file, and two reads in a row.
use native.Mathlib.Nat.{add-mod_right}
use hazle_os.Prelude.{
  ℕ, suc, ◌+◌, ◌-◌, ◌*◌, ◌%◌, ◌^◌, ◌≤◌, ◌<◌, ◌≡◌, refl, inl, inr, true, ◌&&◌, List, ◌∷◌, length,
  arith, leb, ltb, if◌then◌else◌, ==_refl, Bool-cases, lt→ltb, ◌∙◌, ap, ap₂, Buffer, some, sub32,
  signed32, pos,
}
use hazle_os.Device.{BlockDevice, IsReliable}
use hazle_os.Fat32.{Fs, Volume, cluster_buffer_size}
use hazle_os.Fat32.Table.Coherent.{IsGeometry, entry, IsCoherent}
use hazle_os.Fat32.Table.Alloc.{IsSized}
use hazle_os.Fat32.Table.Links.{Chain, link}
use hazle_os.Fat32.Bpb.Layout.{IsLaidOut}
use hazle_os.Fat32.File.{OpenFile, Transfer, read_loop, read_file}
use hazle_os.Fat32.File.Stream.{AreData, stream, cluster_byte, cluster_at, cluster_byte-same}
use hazle_os.Fat32.File.Reading.{IsRead}
use hazle_os.Fat32.File.Reading.Loop.{read_loop-IsRead, Chain-same, idle-IsRead}
use hazle_os.Fat32.File.Rounds.{suc_mul}

-- What is left of the file, or less.
abbrev pub wanted : OpenFile → (size : ℕ) → ℕ
wanted f size = if ltb (f.size - f.position) size then f.size - f.position else size

-- An open file whose chain from the current cluster holds the next `size` bytes, on a volume whose
-- clusters fit in the array they are read to.
pub record IsReadable {B : BlockDevice} (fs : Fs) (v : Volume B) (f : OpenFile) (clusters : List ℕ)
    (size : ℕ) : Type 0 where
  pub chain : Chain (entry fs v) f.current_cluster clusters
  pub are_data : AreData fs clusters
  pub word : f.size < 2 ^ 32
  pub fits_array : fs.bytes_per_cluster ≤ cluster_buffer_size
  pub holds :
      f.position % fs.bytes_per_cluster + wanted f size ≤ length clusters * fs.bytes_per_cluster

module _ {B : BlockDevice} (fs : Fs) (g : IsGeometry fs) (sized : IsSized fs) (l : IsLaidOut fs)
    (r : IsReliable B) where
  -- `fat32_read` on a reliable device, for a file whose chain from its current cluster holds what is
  -- asked for, where a cluster fits in the 32768 bytes of `file_cluster_buffer`: it ends within that many rounds and one, returns how many bytes there are up to the
  -- end of the file and at most `size`, copies them from the chain, moves the position by as many,
  -- and changes no entry of the table and no data sector. The file is left in the cluster of the last
  -- byte read.
  pub read_file-IsRead :
      (size : ℕ) (out : Buffer) (f : OpenFile) (v : Volume B) (clusters : List ℕ)
      → size < 2 ^ 32
      → IsCoherent fs v
      → IsReadable fs v f clusters size
      → (t : Transfer) × (w : Volume B) × (read_file fs (wanted f size + 1) size out f v
          ≡ some (t, w))
        × IsRead fs g sized l r v w f clusters (wanted f size) 0 out t
  unfolding read_file
  read_file-IsRead size out f v clusters size_word coherent h =
      elim (Bool-cases (leb f.size f.position)) [
        | inl at_end ↦
            let nothing : wanted f size ≡ 0 = ground arith in
            (
              record { result = pos 0; bytes = out; file = f },
              v,
              rw (at_end, read_file) refl,
              rw nothing (idle-IsRead fs g sized l r 0 out f v clusters coherent),
            )
        | inr before ↦
            let remaining : sub32 f.size f.position ≡ f.size - f.position =
              ground (arith, h.word) in
            let bound : wanted f size ≤ f.size - f.position = ground arith in
            let bound' : wanted f size ≤ size = ground arith in
            let inside : f.position < f.size = ground arith in
            let start : read_file fs (wanted f size + 1) size out f v
                ≡ read_loop fs (wanted f size + 1) (wanted f size) 0 out f v =
              rw (before, remaining, read_file) refl in
            let (t, w, ran, did) =
              read_loop-IsRead fs g sized l r (wanted f size + 1) (wanted f size) 0 out f v coherent
                refl h.chain h.are_data (omega arith) (omega arith) (omega (arith, h.word))
                (omega (arith, h.holds)) (omega arith) (ground (arith, h.fits_array)) in
            (t, w, start ∙ ran, did)
      ]

  IsRead-exact :
      (n size : ℕ) (out : Buffer) (f : OpenFile) (v : Volume B) (clusters : List ℕ)
      → wanted f size ≡ n
      → size < 2 ^ 32
      → IsCoherent fs v
      → IsReadable fs v f clusters size
      → (t : Transfer) × (w : Volume B) × (read_file fs (n + 1) size out f v ≡ some (t, w))
        × IsRead fs g sized l r v w f clusters n 0 out t
  IsRead-exact n size out f v clusters e word coherent h =
      rw (← e) (read_file-IsRead size out f v clusters word coherent h)

  head : {next : ℕ → ℕ} {d c : ℕ} {clusters : List ℕ} → Chain next d (c ∷ clusters) → d ≡ c
  head (link e rest) = refl

  abbrev after_cluster : OpenFile → ℕ → OpenFile
  after_cluster f c = record f { position = f.position + fs.bytes_per_cluster; current_cluster = c }

  stays :
      (f : OpenFile) (c : ℕ) (clusters : List ℕ)
      → f.position % fs.bytes_per_cluster ≡ 0
      → 0 < fs.bytes_per_cluster
      → record f {
        position = f.position + (fs.bytes_per_cluster - 0);
        current_cluster =
            if ltb 0 fs.bytes_per_cluster
            then cluster_at fs
                (c ∷ clusters)
                (f.position % fs.bytes_per_cluster + (fs.bytes_per_cluster - 0) - 1)
            else f.current_cluster;
      }
        ≡ after_cluster f c
  stays f c clusters start some_bytes =
      ap₂ (λ p k. record f { position = p; current_cluster = k }) (omega arith)
        (ground (arith, start))

  first_bytes :
      (n o j old : ℕ) (v : Volume B) (c : ℕ) (clusters : List ℕ)
      → o ≡ 0
      → n ≤ fs.bytes_per_cluster
      → j < n
      → (if leb 0 j && ltb j n then stream fs v (c ∷ clusters) (o + (j - 0)) else old)
        ≡ cluster_byte fs v c j
  first_bytes n o j old v c clusters start fits below =
      let inside : (leb 0 j && ltb j n) ≡ true = ground arith in
      let same : o + (j - 0) ≡ j = omega arith in
      rw (inside, same, lt→ltb j fs.bytes_per_cluster (omega arith)) refl

  one_cluster : (n size : ℕ) → size ≤ fs.bytes_per_cluster → 0 + size ≤ suc n * fs.bytes_per_cluster
  one_cluster n size h = omega (arith, suc_mul n fs.bytes_per_cluster)

  -- Two reads in a row at the start of a cluster that fits in the 32768 bytes of
  -- `file_cluster_buffer`: the first fills a buffer with exactly that cluster.
  -- It leaves the file in the cluster, with the position at the end of it, so that the second read
  -- returns the bytes of the same cluster once more, and not those of the next.
  pub read_file-repeats :
      (size : ℕ) (out again : Buffer) (f : OpenFile) (v : Volume B) (c : ℕ) (clusters : List ℕ)
      → IsCoherent fs v
      → f.position % fs.bytes_per_cluster ≡ 0
      → f.position + fs.bytes_per_cluster + size ≤ f.size
      → 0 < size
      → size ≤ fs.bytes_per_cluster
      → IsReadable fs v f (c ∷ clusters) fs.bytes_per_cluster
      → (t u : Transfer) × (w x : Volume B) × (read_file fs
            (fs.bytes_per_cluster + 1)
            fs.bytes_per_cluster
            out
            f
            v
          ≡ some (t, w))
        × (read_file fs (size + 1) size again t.file w ≡ some (u, x))
        × (t.result ≡ signed32 fs.bytes_per_cluster)
        × (u.result ≡ signed32 size)
        × (u.file.position ≡ f.position + fs.bytes_per_cluster + size)
        × ((j : ℕ)
            → j < size
            → (t.bytes j ≡ cluster_byte fs v c j) × (u.bytes j ≡ cluster_byte fs v c j))
  read_file-repeats size out again f v c clusters coherent start long more small h =
      let whole : wanted f fs.bytes_per_cluster ≡ fs.bytes_per_cluster = ground arith in
      let (t, w, ran, did) =
        IsRead-exact fs.bytes_per_cluster fs.bytes_per_cluster out f v (c ∷ clusters) whole
          (omega (arith, h.word)) coherent h in
      let here : f.current_cluster ≡ c = head h.chain in
      let left : t.file ≡ after_cluster f c = did.file ∙ stays f c clusters start (omega arith) in
      let part : wanted (after_cluster f c) size ≡ size = ground arith in
      let boundary : (f.position + fs.bytes_per_cluster) % fs.bytes_per_cluster ≡ 0 =
        add-mod_right f.position fs.bytes_per_cluster ∙ start in
      let (u, x, ran2, did2) =
        IsRead-exact size size again (after_cluster f c) w (c ∷ clusters) part
          (omega (arith, h.word)) did.untouched.same_table.coherent
          (record {
            chain = rw here at (Chain-same fs g sized l r did.untouched h.are_data h.chain);
            are_data = h.are_data;
            word = h.word;
            fits_array = h.fits_array;
            holds = rw (boundary, part) (one_cluster (length clusters) size small);
          }) in
      (
        t,
        u,
        w,
        x,
        ran,
        ap (λ k. read_file fs (size + 1) size again k w) left ∙ ran2,
        did.result,
        did2.result,
        ap (λ k. k.position) did2.file ∙ omega arith,
        λ j below. (
          did.bytes j
              ∙ first_bytes fs.bytes_per_cluster (f.position % fs.bytes_per_cluster) j _ v c
                  clusters start (omega arith) (omega arith),
          did2.bytes j
              ∙ first_bytes size ((f.position + fs.bytes_per_cluster) % fs.bytes_per_cluster) j _ w
                  c clusters boundary small below
              ∙ cluster_byte-same fs g l c j did.untouched (h.are_data c (rw (==_refl c) refl))
                  (omega arith),
        ),
      )
