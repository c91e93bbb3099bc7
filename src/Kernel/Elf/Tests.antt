-- ===== src/Kernel/Elf/Tests.antt =====
-- The loader at a small program in the heap: one segment of two bytes and two zeros.
use hazle_os.Prelude.{
  Bool-cases, inl, inr, ℕ, ◌≡◌, refl, ◌≢◌, true, arith, Buffer, IsBytes, blank, get16, get32, set16,
  set32, set32-IsBytes, ◌<◌, ◌≤◌, ◌+◌, ◌-◌, ◌&&◌, leb, ltb, if◌then◌else◌, u32,
}
use hazle_os.Kernel.Elf.{
  load, validate, load_segments, judge_header, copy_segment, copy_bytes, clear_bytes, elf_magic,
  entry, phnum, phdr_offset,
}
use hazle_os.Kernel.Elf.Segment.{Covers, extent, image, file}
use hazle_os.Kernel.Elf.Steps.{Touches, IsLoadable, IsApart, header}
use hazle_os.Kernel.Elf.Loaded.{load-other, load-image}

abbrev ident : Buffer
ident = set16 (set16 (set16 (set32 blank 0 elf_magic) 4 257) 16 2) 18 3

abbrev program_header : Buffer
program_header = set32 (set32 (set32 (set32 (set32 ident 52 1) 56 84) 60 4096) 68 2) 72 4

abbrev program : Buffer
program = set16 (set16 (set16 (set32 (set32 program_header 24 4096) 28 52) 42 32) 44 1) 84 0x9090

abbrev program_size : ℕ
program_size = 86

-- Where the heap begins.
abbrev base : ℕ
base = 0x400000

abbrev memory : Buffer
memory a = if leb base a && ltb a (base + program_size) then program (a - base) else 7

abbrev address : ℕ
address = 5000

one_header : phnum (file base program_size memory) ≡ 1
unfolding get16 set16 set32
one_header = refl

the_segment :
    (extent (header base program_size memory 0) ≡ 4)
    × ((header base program_size memory 0).vaddr ≡ 4096)
    × ((header base program_size memory 0).offset ≡ 84)
    × ((header base program_size memory 0).filesz ≡ 2)
    × (phdr_offset (file base program_size memory) 0 ≡ 52)
unfolding get16 get32 set16 set32
the_segment = (refl, refl, refl, refl, refl)

set16-IsBytes : (b : Buffer) (i v : ℕ) → IsBytes b → IsBytes (set16 b i v)
unfolding set16
set16-IsBytes b i v h j = ground (arith, h j)

ident-IsBytes : IsBytes ident
ident-IsBytes = set16-IsBytes _ 18 3 (
    set16-IsBytes _ 16 2
      (set16-IsBytes _ 4 257 (set32-IsBytes blank 0 elf_magic (λ j. omega arith))))

program_header-IsBytes : IsBytes program_header
program_header-IsBytes = set32-IsBytes _ 72 4 (
    set32-IsBytes _ 68 2
      (set32-IsBytes _ 60 4096 (set32-IsBytes _ 56 84 (set32-IsBytes ident 52 1 ident-IsBytes))))

program-IsBytes : IsBytes program
program-IsBytes = set16-IsBytes _ 84 0x9090 (
    set16-IsBytes _ 44 1 (
      set16-IsBytes _ 42 32
        (set32-IsBytes _ 28 52 (set32-IsBytes program_header 24 4096 program_header-IsBytes))))

memory-IsBytes : IsBytes memory
memory-IsBytes j = elim (Bool-cases (leb base j && ltb j (base + program_size))) [
  | inl inside ↦ rw inside (program-IsBytes (j - base))
  | inr outside ↦ rw outside (omega arith)
]

memory-IsApart : IsApart base program_size memory
memory-IsApart = record {
  bytes = memory-IsBytes;
  headers = λ k below.
      let first : k ≡ 0 = omega (arith, one_header, below) in rw first (omega (arith, the_segment));
  sources = λ k loads.
      let first : k ≡ 0 = omega (arith, one_header, loads.0) in
      rw first (omega (arith, the_segment));
  off = λ k loads o below.
      let first : k ≡ 0 = omega (arith, one_header, loads.0) in
      λ covers.
        let here : Covers (header base program_size memory 0) (u32 (base + o)) =
          rw first at covers in
        absurd (omega (arith, the_segment, here, below));
}

far : ¬ Touches base program_size memory 0 address
far (k, above, loads, covers) =
    let first : k ≡ 0 = omega (arith, one_header, loads.0) in
    let here : Covers (header base program_size memory 0) address = rw first at covers in
    absurd (omega (arith, the_segment, here))

load-other_example : (load base program_size memory).1 address ≡ memory address
load-other_example = load-other base program_size memory address memory-IsApart (omega arith) far

runs : (load base program_size memory).0 ≢ 0
unfolding load validate load_segments judge_header copy_segment copy_bytes clear_bytes get16 get32
    set16 set32
runs e = absurd (cc e)

load-image_example :
    (validate (file base program_size memory) program_size ≡ true)
    × ((load base program_size memory).0 ≡ entry (file base program_size memory))
    × ((k j : ℕ)
        → IsLoadable base program_size memory k
        → j < extent (header base program_size memory k)
        → ¬ Touches base program_size memory
            (k + 1)
            (u32 ((header base program_size memory k).vaddr + j))
        → ((header base program_size memory k).offset + (header base program_size memory k).filesz
            ≤ program_size)
          × ((load base program_size memory).1 (u32 ((header base program_size memory k).vaddr + j))
              ≡ image base program_size memory (header base program_size memory k) j))
load-image_example = load-image base program_size memory memory-IsApart runs
