-- ===== src/Kernel/Heap/Tests.antt =====
-- The heap at concrete sizes.
use hazle_os.Prelude.{ℕ, ◌≡◌, refl, ◌<◌, ◌+◌, [], ◌∷◌, some, arith}
use hazle_os.Kernel.Heap.{heap_start, heap_size, alloc}
use hazle_os.Kernel.Heap.Blocks.{
  IsHeap, alloc-wraps, allocs, IsApart, no_size, size, allocs-IsApart,
}

abbrev some_used : ℕ
some_used = 32

some_used-IsHeap : IsHeap some_used
some_used-IsHeap = record { inside = omega arith; aligned = refl }

abbrev huge : ℕ
huge = 0xFFFFFFF0

alloc-wraps_example :
    ((alloc huge some_used).0 ≡ some (heap_start + some_used))
    × (heap_start + heap_size < heap_start + some_used + huge)
alloc-wraps_example = alloc-wraps huge some_used some_used-IsHeap (omega arith) (omega arith)

allocs-IsApart_example : IsApart (heap_start + some_used) (allocs (20 ∷ 7 ∷ []) some_used)
allocs-IsApart_example =
    allocs-IsApart (20 ∷ 7 ∷ []) some_used some_used-IsHeap
      (size (omega arith) (size (omega arith) no_size))
