-- ===== src/Kernel/Heap.antt =====
-- kernel/heap.c: an allocator that only moves forward.
pub mod Blocks
pub mod Tests
use hazle_os.Prelude.{ℕ, ◌+◌, ◌*◌, ◌/◌, Option, none, some, ltb, if◌then◌else◌, u32}

abbrev pub heap_start : ℕ
heap_start = 0x00400000

abbrev pub heap_size : ℕ
heap_size = 0x00100000

-- The state is `heap_offset`.
pub init : ℕ → ℕ
init heap_offset = 0

-- `(size + 15) & ~15`
abbrev pub round_up : ℕ → ℕ
round_up size = u32 (size + 15) / 16 * 16

-- `none` is the null pointer.
pub alloc : (size heap_offset : ℕ) → Option ℕ × ℕ
alloc size heap_offset =
    if ltb heap_size (u32 (heap_offset + size))
    then (none, heap_offset)
    else (some (heap_start + heap_offset), u32 (heap_offset + round_up size))

pub free : (ptr heap_offset : ℕ) → ℕ
free ptr heap_offset = heap_offset

pub reset : ℕ → ℕ
reset heap_offset = 0

pub get_used : ℕ → ℕ
get_used heap_offset = heap_offset
