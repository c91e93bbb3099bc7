-- ===== src/Kernel/Heap/Blocks.antt =====
-- The blocks that the allocator hands out.
use hazle_os.Prelude.{
  ℕ, ◌+◌, ◌%◌, ◌^◌, ◌≤◌, ◌<◌, ◌≡◌, refl, ◌⊎◌, inl, inr, false, none, some, ltb, arith, List, [],
  ◌∷◌, Bool-cases, u32, ap,
}
use hazle_os.Kernel.Heap.{heap_start, heap_size, round_up, alloc}

-- The state of a heap between calls.
pub record IsHeap (heap_offset : ℕ) : Type 0 where
  pub inside : heap_offset ≤ heap_size
  pub aligned : heap_offset % 16 ≡ 0

-- A block of at least `size` bytes, aligned to 16, between the old and the new offset.
pub record IsBlock (size old new ptr : ℕ) : Type 0 where
  pub from_old : heap_start + old ≤ ptr
  pub to_new : ptr + size ≤ heap_start + new
  pub in_heap : ptr + size ≤ heap_start + heap_size
  pub aligned : ptr % 16 ≡ 0

-- `heap_alloc` of a size for which `heap_offset + size` does not wrap fails exactly if the rest of
-- the heap is too small, and then changes nothing; else it returns a block that is aligned to 16 and
-- lies between the old and the new offset, within the heap.
pub alloc-IsBlock :
    (size heap_offset : ℕ)
    → IsHeap heap_offset
    → heap_offset + size < 2 ^ 32
    → ((heap_size < heap_offset + size) × (alloc size heap_offset ≡ (none, heap_offset)))
      ⊎ ((ptr : ℕ) × (new : ℕ) × (alloc size heap_offset ≡ (some ptr, new))
          × IsHeap new
          × IsBlock size heap_offset new ptr)
unfolding alloc
alloc-IsBlock size heap_offset h small =
    elim (Bool-cases (ltb heap_size ((heap_offset + size) % 2 ^ 32))) [
      | inl full ↦ inl (ground arith, rw full refl)
      | inr room ↦
          let fits : heap_offset + size ≤ heap_size = ground arith in
          inr (
            heap_start + heap_offset,
            u32 (heap_offset + round_up size),
            rw room refl,
            record {
              inside = omega (arith, h.aligned, h.inside);
              aligned = omega (arith, h.aligned);
            },
            record {
              from_old = omega arith;
              to_new = omega (arith, h.aligned);
              in_heap = omega arith;
              aligned = omega (arith, h.aligned);
            },
          )
    ]

-- A size that makes `heap_offset + size` wrap into the heap is taken: `heap_alloc` returns a
-- block of which less than the size lies in the heap.
pub alloc-wraps :
    (size heap_offset : ℕ)
    → IsHeap heap_offset
    → size < 2 ^ 32
    → 2 ^ 32 ≤ heap_offset + size
    → ((alloc size heap_offset).0 ≡ some (heap_start + heap_offset))
      × (heap_start + heap_size < heap_start + heap_offset + size)
unfolding alloc
alloc-wraps size heap_offset h word wraps =
    let room : ltb heap_size ((heap_offset + size) % 2 ^ 32) ≡ false = ground (arith, h.inside) in
    (rw room refl, omega arith)

-- The blocks of a sequence of calls, with the sizes asked for.
pub allocs : List ℕ → (heap_offset : ℕ) → List (ℕ × ℕ)
allocs [] heap_offset = []
allocs (size ∷ sizes) heap_offset = elim (alloc size heap_offset).0 [
  | none ↦ allocs sizes (alloc size heap_offset).1
  | some ptr ↦ (ptr, size) ∷ allocs sizes (alloc size heap_offset).1
]

-- Each block lies behind those before it, from `low` on, and within the heap.
pub data IsApart : (low : ℕ) → List (ℕ × ℕ) → Type 0 where
  no_block : {low : ℕ} → IsApart low []
  block :
      {low ptr size : ℕ} {rest : List (ℕ × ℕ)}
      → low ≤ ptr
      → ptr + size ≤ heap_start + heap_size
      → ptr % 16 ≡ 0
      → IsApart (ptr + size) rest
      → IsApart low ((ptr, size) ∷ rest)

lower :
    {low low' : ℕ} {blocks : List (ℕ × ℕ)} → low ≤ low' → IsApart low' blocks → IsApart low blocks
lower h no_block = no_block
lower h (block a b c rest) = block (omega arith) b c rest

pub data AreSmall : List ℕ → Type 0 where
  no_size : AreSmall []
  size : {n : ℕ} {sizes : List ℕ} → n < 2 ^ 31 → AreSmall sizes → AreSmall (n ∷ sizes)

-- For sizes below 2 GiB, the blocks that a sequence of `heap_alloc` calls returns do not overlap, are
-- aligned to 16, and lie in the heap.
pub allocs-IsApart :
    (sizes : List ℕ) (heap_offset : ℕ)
    → IsHeap heap_offset
    → AreSmall sizes
    → IsApart (heap_start + heap_offset) (allocs sizes heap_offset)
unfolding allocs
allocs-IsApart [] heap_offset h no_size = no_block
allocs-IsApart (n ∷ sizes) heap_offset h (size small rest) =
    elim (alloc-IsBlock n heap_offset h (omega (arith, h.inside))) [
      | inl (full, e) ↦
          rw (ap (λ p. p.0) e, ap (λ p. p.1) e, allocs) (allocs-IsApart sizes heap_offset h rest)
      | inr (ptr, new, e, h', b) ↦
          rw (ap (λ p. p.0) e, ap (λ p. p.1) e, allocs)
            (block b.from_old b.in_heap b.aligned
              (lower b.to_new (allocs-IsApart sizes new h' rest)))
    ]
