-- ===== src/Kernel/Elf.antt =====
-- kernel/elf.c: the check of a program's header, and the copy of its segments to their addresses.
-- The file lies at the address `base` of the memory that the segments are copied to.
pub mod Bytes
pub mod Segment
pub mod Steps
pub mod Loaded
pub mod Tests
use hazle_os.Prelude.{
  ℕ, zero, suc, ◌+◌, ◌-◌, ◌*◌, ◌^◌, Bool, true, false, not, ◌&&◌, leb, ltb, ◌==◌, if◌then◌else◌,
  Buffer, update, u32, get16, get32,
}

abbrev pub elf_magic : ℕ
elf_magic = 0x464C457F

abbrev pub et_exec : ℕ
et_exec = 2

abbrev pub em_386 : ℕ
em_386 = 3

abbrev pub pt_load : ℕ
pt_load = 1

-- The file as the code sees it through the pointer `data`, here `base`.
abbrev pub file_at : (memory : Buffer) (base : ℕ) → Buffer
file_at memory base o = memory (u32 (base + o))

-- The fields of `elf32_header_t` that are read, at their offsets in the packed structure.
abbrev pub entry : Buffer → ℕ
entry file = get32 file 24

abbrev pub phoff : Buffer → ℕ
phoff file = get32 file 28

abbrev pub phentsize : Buffer → ℕ
phentsize file = get16 file 42

abbrev pub phnum : Buffer → ℕ
phnum file = get16 file 44

-- `elf32_phdr_t`
pub record Phdr : Type 0 where
  pub type : ℕ
  pub offset : ℕ
  pub vaddr : ℕ
  pub filesz : ℕ
  pub memsz : ℕ

abbrev pub phdr_at : Buffer → ℕ → Phdr
phdr_at file o = record {
  type = get32 file o;
  offset = get32 file (o + 4);
  vaddr = get32 file (o + 8);
  filesz = get32 file (o + 16);
  memsz = get32 file (o + 20);
}

-- `hdr->phoff + (i * hdr->phentsize)`
abbrev pub phdr_offset : Buffer → ℕ → ℕ
phdr_offset file i = u32 (phoff file + i * phentsize file)

pub validate : Buffer → (size : ℕ) → Bool
validate file size =
    if ltb size 52
    then false
    else if not (get32 file 0 == elf_magic)
    then false
    else if not (file 4 == 1)
    then false
    else if not (file 5 == 1)
    then false
    else if not (get16 file 16 == et_exec)
    then false
    else if not (get16 file 18 == em_386)
    then false
    else true

-- `memcpy` of lib/string.c within the memory: an address is 32 bits wide and wraps.
pub copy_bytes : (n dest src : ℕ) → Buffer → Buffer
copy_bytes zero dest src memory = memory
copy_bytes (suc n) dest src memory =
    copy_bytes n (dest + 1) (src + 1) (update memory (u32 dest) (memory (u32 src)))

-- `memset` of lib/string.c to 0, likewise.
pub clear_bytes : (n dest : ℕ) → Buffer → Buffer
clear_bytes zero dest memory = memory
clear_bytes (suc n) dest memory = clear_bytes n (dest + 1) (update memory (u32 dest) 0)

-- The copy of the segment whose header stands at offset `o`, and the zero bytes behind it. The code
-- reads the sizes again after the copy.
pub copy_segment : (base o : ℕ) → Buffer → Buffer
unfolding copy_bytes clear_bytes
copy_segment base o memory =
    let p = phdr_at (file_at memory base) o in
    let copied = copy_bytes p.filesz p.vaddr (base + p.offset) memory in
    let q = phdr_at (file_at copied base) o in
    if ltb q.filesz q.memsz
    then clear_bytes (q.memsz - q.filesz) (p.vaddr + q.filesz) copied
    else copied

-- What the loop does at header `i` of `count`, which stands at offset `o`.
pub data Step : Type 0 where
  finished broken skipped copied : Step

pub judge_header : (size count i o : ℕ) → Phdr → Step
judge_header size count i o p =
    if not (ltb i count)
    then finished
    else if ltb size (u32 (o + 32))
    then broken
    else if not (p.type == pt_load)
    then skipped
    else if ltb size (u32 (p.offset + p.filesz))
    then broken
    else copied

-- The loop of `elf_load` at header `i`, where `n` is what `i` lacks of 2^16, which no 16-bit number
-- of headers reaches. `false` is `return 0`. The headers are read as they are in memory by then.
pub load_segments : (base size n i : ℕ) → Buffer → Bool × Buffer
unfolding copy_segment judge_header
load_segments base size zero i memory = (true, memory)
load_segments base size (suc n) i memory =
    let file = file_at memory base in
    let o = phdr_offset file i in
    elim (judge_header size (phnum file) i o (phdr_at file o)) [
      | finished ↦ (true, memory)
      | broken ↦ (false, memory)
      | skipped ↦ load_segments base size n (i + 1) memory
      | copied ↦ load_segments base size n (i + 1) (copy_segment base o memory)
    ]

-- The entry point or 0, and the memory.
pub load : (base size : ℕ) → Buffer → ℕ × Buffer
unfolding validate load_segments
load base size memory =
    if validate (file_at memory base) size
    then (let (loaded, memory') = load_segments base size (2 ^ 16) 0 memory in
        (if loaded then entry (file_at memory' base) else 0, memory'))
    else (0, memory)
