-- ===== src/Fat32/File/Calls/Checked.antt =====
-- The guard of the calls on descriptors: which ones are served, and which are refused.
use hazle_os.Prelude.{
  ==_refl, ℕ, ◌<◌, ◌≡◌, refl, ap, ◌∙◌, inl, inr, ◌⊎◌, true, false, ◌&&◌, arith, ltb, Bool-cases,
  none, some, Buffer, ℤ, pos, negsuc, neg,
}
use hazle_os.Device.{BlockDevice}
use hazle_os.Fat32.{Fs}
use hazle_os.Fat32.File.{Files, lookup, seek_file}
use hazle_os.Fat32.File.Calls.{read, write, close, seek, tell, size}
use hazle_os.Fat32.File.Calls.Descriptors.{in_use}

-- The descriptor is the number of a place of the table that is in use.
pub record IsOpen {B : BlockDevice} (fd : ℤ) (k : ℕ) (s : Files B) : Type 0 where
  pub same : fd ≡ pos k
  pub place : k < 8
  pub used : in_use s k ≡ true

module _ {B : BlockDevice} (fs : Fs) where
  -- What the calls do with a descriptor that they refuse.
  pub record IsRefused (fuel : ℕ) (fd : ℤ) (buffer : Buffer) (n position : ℕ) (s : Files B)
      : Type 0 where
    pub read_refused : read fs fuel fd buffer n s ≡ some ((neg 1, buffer), s)
    pub write_refused : write fs fuel fd buffer n s ≡ some (neg 1, s)
    pub close_refused : close fs fuel fd s ≡ some s
    pub seek_refused : seek fs fd position s ≡ (false, s)
    pub tell_refused : tell fd s.open_files ≡ 0
    pub size_refused : size fd s.open_files ≡ 0

  -- What they do with the descriptor of the file at place `k`.
  pub record IsServed (fuel k : ℕ) (fd : ℤ) (position : ℕ) (s : Files B) : Type 0 where
    pub seek_moves : ((seek fs fd position s).1.open_files k).position ≡ position
    pub seek_served : (seek fs fd position s).0 ≡ true
    pub tell_position : tell fd s.open_files ≡ (s.open_files k).position
    pub size_served : size fd s.open_files ≡ (s.open_files k).size

  pub lookup-IsRefused :
      (fuel : ℕ) (fd : ℤ) (buffer : Buffer) (n position : ℕ) (s : Files B)
      → lookup fd s.open_files ≡ none
      → IsRefused fuel fd buffer n position s
  unfolding read write close seek tell size
  lookup-IsRefused fuel fd buffer n position s e = record {
    read_refused = rw (e, read) refl;
    write_refused = rw (e, write) refl;
    close_refused = rw (e, close) refl;
    seek_refused = rw (e, seek) refl;
    tell_refused = rw (e, tell) refl;
    size_refused = rw (e, size) refl;
  }

  lookup-IsServed :
      (fuel k : ℕ) (fd : ℤ) (position : ℕ) (s : Files B)
      → lookup fd s.open_files ≡ some k
      → IsServed fuel k fd position s
  unfolding seek tell size seek_file
  lookup-IsServed fuel k fd position s e =
      let here = ==_refl k in
      record {
        seek_moves = rw (e, seek) (rw here refl);
        seek_served = rw (e, seek) refl;
        tell_position = rw (e, tell) refl;
        size_served = rw (e, size) refl;
      }

  -- Every descriptor is one of two. Either it is the number of a place from 0 to 7 that is in use:
  -- then `fat32_tell` and `fat32_size` tell of the file there, and `fat32_seek` succeeds and sets its
  -- position. Or it is negative, above 7, or the number of a place that is not in use: then every call
  -- fails and changes nothing, where `fat32_read` and `fat32_write` return -1, `fat32_seek` false, and
  -- `fat32_tell` and `fat32_size` 0.
  pub lookup-IsOpen :
      (fuel : ℕ) (fd : ℤ) (buffer : Buffer) (n position : ℕ) (s : Files B)
      → ((k : ℕ) × IsOpen fd k s × IsServed fuel k fd position s)
        ⊎ (((k : ℕ) → ¬ IsOpen fd k s) × IsRefused fuel fd buffer n position s)
  unfolding lookup
  lookup-IsOpen fuel (negsuc m) buffer n position s = inr (
    λ k open_at. absurd (cc (open_at.same)),
    lookup-IsRefused fuel (negsuc m) buffer n position s refl,
  )
  lookup-IsOpen fuel (pos m) buffer n position s = elim (Bool-cases (ltb m 8 && in_use s m)) [
    | inl found ↦ inl (
      m,
      record { same = refl; place = ground arith; used = ground arith },
      lookup-IsServed fuel m (pos m) position s (rw found refl),
    )
    | inr out ↦ inr (
      λ k open_at.
          let here : m ≡ k = ap (λ z. elim z [ pos a ↦ a | negsuc a ↦ a ]) open_at.same in
          let there : in_use s m ≡ true = ap (in_use s) here ∙ open_at.used in
          let never = rw there at out in absurd (ground (arith, here, open_at.place, never)),
      lookup-IsRefused fuel (pos m) buffer n position s (rw out refl),
    )
  ]
