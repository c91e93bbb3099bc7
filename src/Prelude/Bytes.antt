-- ===== src/Prelude/Bytes.antt =====
-- Byte buffers, the fixed widths of C, and little-endian fields.
-- A mask of the low k bits is `% 2 ^ k`, a right shift is `/ 2 ^ k`, a left shift is `* 2 ^ k`,
-- and `|` of disjoint fields is their sum.
use Prim.Native.Nat.{ℕ, ◌+◌, ◌-◌, ◌*◌, ◌/◌, ◌%◌, ◌^◌, ◌<◌, ◌≤◌}
use mathlib.Core.Path.{◌≡◌}
use mathlib.Core.Logic.{◌⊎◌}
use mathlib.Core.Bool.{Bool}
use native.Mathlib.Omega.{arith}
use hazle_os.Prelude.Tests.{◌==◌, if◌then◌else◌}

-- The bytes of a buffer by their offset. Only offsets within the C array are meant.
abbrev pub Buffer : Type 0
Buffer = ℕ → ℕ

abbrev pub blank : Buffer
blank _ = 0

abbrev pub u8 : ℕ → ℕ
u8 n = n % 2 ^ 8

abbrev pub u16 : ℕ → ℕ
u16 n = n % 2 ^ 16

abbrev pub u32 : ℕ → ℕ
u32 n = n % 2 ^ 32

-- uint32_t a - b
abbrev pub sub32 : ℕ → ℕ → ℕ
sub32 a b = (a + 2 ^ 32 - b % 2 ^ 32) % 2 ^ 32

-- The test `x & (1 << k)`.
abbrev pub has_bit : ℕ → ℕ → Bool
has_bit x k = x / 2 ^ k % 2 == 1

-- One cell of a map replaced.
abbrev pub update {ℓ} : {A : Type ℓ} → (ℕ → A) → ℕ → A → ℕ → A
update f n a m = if m == n then a else f m

unfoldable pub get16 : Buffer → ℕ → ℕ
get16 b i = b i + 256 * b (i + 1)

unfoldable pub get32 : Buffer → ℕ → ℕ
get32 b i = b i + 256 * b (i + 1) + 65536 * b (i + 2) + 16777216 * b (i + 3)

unfoldable pub set16 : Buffer → ℕ → ℕ → Buffer
set16 b i v j = if j == i then v % 256 else if j == i + 1 then v / 256 % 256 else b j

unfoldable pub set32 : Buffer → ℕ → ℕ → Buffer
set32 b i v j =
    if j == i
    then v % 256
    else if j == i + 1
    then v / 256 % 256
    else if j == i + 2
    then v / 65536 % 256
    else if j == i + 3
    then v / 16777216 % 256
    else b j

abbrev pub IsBytes : Buffer → Type 0
IsBytes b = (j : ℕ) → b j < 256

pub get32-lt : (b : Buffer) (i : ℕ) → IsBytes b → get32 b i < 2 ^ 32
unfolding get32
get32-lt b i h = omega (arith, h i, h (i + 1), h (i + 2), h (i + 3))

pub get32-set32_self : (b : Buffer) (i v : ℕ) → v < 2 ^ 32 → get32 (set32 b i v) i ≡ v
unfolding get32 set32
get32-set32_self b i v h = ground arith

-- Aligned 32-bit fields do not overlap.
pub get32-set32_ne :
    (b : Buffer) (i j v : ℕ) → (i + 4 ≤ j) ⊎ (j + 4 ≤ i) → get32 (set32 b i v) j ≡ get32 b j
unfolding get32 set32
get32-set32_ne b i j v h = ground arith

pub set32-IsBytes : (b : Buffer) (i v : ℕ) → IsBytes b → IsBytes (set32 b i v)
unfolding set32
set32-IsBytes b i v h j = ground (arith, h j)

pub get16-set16_self : (b : Buffer) (i v : ℕ) → v < 2 ^ 16 → get16 (set16 b i v) i ≡ v
unfolding get16 set16
get16-set16_self b i v h = ground arith
