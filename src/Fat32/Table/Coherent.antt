-- ===== src/Fat32/Table/Coherent.antt =====
-- What the table stands for: the cached sector over the first copy on the medium.
use native.Mathlib.Nat.{mul-le-mul_right}
use hazle_os.Prelude.{
  ℕ, suc, ◌+◌, ◌*◌, ◌/◌, ◌%◌, ◌^◌, ◌≤◌, ◌<◌, ◌≡◌, ◌⊎◌, false, arith, ◌==◌, if◌then◌else◌, Buffer,
  IsBytes, u32, get32,
}
use hazle_os.Device.{BlockDevice}
use hazle_os.Fat32.{Fs, Volume, no_sector}

-- The geometry that fat.c relies on: 512-byte sectors, at least one copy, and no wrap.
pub record IsGeometry (fs : Fs) : Type 0 where
  pub sector_size : fs.bytes_per_sector ≡ 512
  pub copies : 0 < fs.num_fats
  pub fits : fs.first_fat_sector + fs.num_fats * fs.sectors_per_fat < 2 ^ 32
  pub table_size : fs.sectors_per_fat ≤ 2 ^ 23

-- A cluster whose entry lies in the table.
abbrev pub InTable : Fs → ℕ → Type 0
InTable fs cluster = cluster * 4 / 512 < fs.sectors_per_fat

module _ {B : BlockDevice} where
  abbrev pub medium : Volume B → ℕ → Buffer
  medium v = BlockDevice.sector B v.dev

  abbrev pub table : Fs → Volume B → ℕ → Buffer
  table fs v s =
      if v.cached_fat_sector == s
      then v.fat_sector_buffer
      else BlockDevice.sector B v.dev (fs.first_fat_sector + s)

  abbrev pub raw_entry : Fs → Volume B → ℕ → ℕ
  raw_entry fs v cluster = get32 (table fs v (cluster * 4 / 512)) (cluster * 4 % 512)

  -- The 28 bits that link a cluster to the next.
  abbrev pub entry : Fs → Volume B → ℕ → ℕ
  entry fs v cluster = raw_entry fs v cluster % 2 ^ 28

  -- A clean cache agrees with the medium, and every byte is one.
  pub record IsCoherent (fs : Fs) (v : Volume B) : Type 0 where
    pub cached : (v.cached_fat_sector < fs.sectors_per_fat) ⊎ (v.cached_fat_sector ≡ no_sector)
    pub clean :
        v.fat_cache_dirty ≡ false
        → v.cached_fat_sector < fs.sectors_per_fat
        → (j : ℕ)
        → v.fat_sector_buffer j
          ≡ BlockDevice.sector B v.dev (fs.first_fat_sector + v.cached_fat_sector) j
    pub buffer_bytes : IsBytes v.fat_sector_buffer
    pub medium_bytes : (n : ℕ) → IsBytes (BlockDevice.sector B v.dev n)

  -- What every operation on the table leaves of it: the same entries, and coherence.
  pub record IsSameTable (fs : Fs) (v w : Volume B) : Type 0 where
    pub coherent : IsCoherent fs w
    pub same : (t : ℕ) → t < fs.sectors_per_fat → (j : ℕ) → table fs w t j ≡ table fs v t j

pub copy_lba :
    (fs : Fs) (i cached : ℕ)
    → IsGeometry fs
    → i < fs.num_fats
    → cached < fs.sectors_per_fat
    → u32 (u32 (fs.first_fat_sector + u32 (i * fs.sectors_per_fat)) + cached)
      ≡ fs.first_fat_sector + i * fs.sectors_per_fat + cached
copy_lba fs i cached g hi hc =
    omega (arith, g.fits, mul-le-mul_right {m = suc i} {n = fs.num_fats} fs.sectors_per_fat hi)
