-- ===== src/Fat32/Directory/Entry/Compose.antt =====
-- The entry that `fat32_create_entry` composes, read back by `fat32_find_entry`.
use hazle_os.Prelude.{
  ℕ, zero, suc, ◌+◌, ◌*◌, ◌/◌, ◌%◌, ◌^◌, ◌≤◌, ◌<◌, ◌≡◌, refl, ◌⊎◌, inl, inr, List, [], ◌∷◌, length,
  arith, ap, ap₂, ◌∙◌, sym, Buffer, get16, get32, set16, set32, update, get16-set16_self,
  get32-set32_self, Option-cases,
}
use hazle_os.Libc.{CString, memset}
use hazle_os.Fat32.Directory.Entry.{
  info_at, entry_name, short_name_to_string, string_to_short_name, bytes_from, put_bytes,
  compose_entry, set_first_cluster, set_size, field, split_last_dot,
}
use hazle_os.Fat32.Directory.Entry.Names.{short_name_of}

length-field : (n : ℕ) (s : CString) → length (field n s) ≡ n
unfolding field
length-field zero s = refl
length-field (suc n) [] = ap suc (length-field n [])
length-field (suc n) (c ∷ s) = ap suc (length-field n s)

short-length :
    (name : CString)
    → (length (string_to_short_name name).0 ≡ 8) × (length (string_to_short_name name).1 ≡ 3)
unfolding string_to_short_name
short-length name = elim (Option-cases (split_last_dot name)) [
  | inl plain ↦ rw (plain, string_to_short_name) (length-field 8 name, length-field 3 [])
  | inr ((before, behind), found) ↦
      rw (found, string_to_short_name) (length-field 8 before, length-field 3 behind)
]

put_bytes-other :
    (b : Buffer) (at : ℕ) (s : List ℕ) (j : ℕ)
    → (j < at) ⊎ (at + length s ≤ j)
    → put_bytes b at s j ≡ b j
unfolding put_bytes
put_bytes-other b at [] j h = refl
put_bytes-other b at (c ∷ s) j h = ground (arith, put_bytes-other b (at + 1) s j)

bytes_from-ext :
    (b d : Buffer) (at n : ℕ)
    → ((j : ℕ) → at ≤ j → j < at + n → b j ≡ d j)
    → bytes_from b at n ≡ bytes_from d at n
unfolding bytes_from
bytes_from-ext b d at zero h = refl
bytes_from-ext b d at (suc n) h =
    ap₂ (λ c s. c ∷ s) (h at (omega arith) (omega arith))
      (bytes_from-ext b d (at + 1) n (λ j lo hi. h j (omega arith) (omega arith)))

bytes_from-put_bytes :
    (b : Buffer) (at : ℕ) (s : List ℕ) → bytes_from (put_bytes b at s) at (length s) ≡ s
unfolding bytes_from put_bytes
bytes_from-put_bytes b at [] = refl
bytes_from-put_bytes b at (c ∷ s) =
    ap₂ (λ d t. d ∷ t) (ground arith)
      (bytes_from-ext (put_bytes b at (c ∷ s)) (put_bytes b (at + 1) s) (at + 1) (length s)
          (λ j lo hi. ground arith)
        ∙ bytes_from-put_bytes b (at + 1) s)

get16-ext :
    (b d : Buffer) (i : ℕ) → ((j : ℕ) → i ≤ j → j < i + 2 → b j ≡ d j) → get16 b i ≡ get16 d i
unfolding get16
get16-ext b d i h =
    omega (arith, h i (omega arith) (omega arith), h (i + 1) (omega arith) (omega arith))

get32-ext :
    (b d : Buffer) (i : ℕ) → ((j : ℕ) → i ≤ j → j < i + 4 → b j ≡ d j) → get32 b i ≡ get32 d i
unfolding get32
get32-ext b d i h = omega (
  arith,
  h i (omega arith) (omega arith),
  h (i + 1) (omega arith) (omega arith),
  h (i + 2) (omega arith) (omega arith),
  h (i + 3) (omega arith) (omega arith),
)

-- The five fields of dates and times that are written last.
abbrev dated : Buffer → ℕ → Buffer
dated b o =
    set16 (set16 (set16 (set16 (set16 b (o + 16) 0x4E21) (o + 14) 0) (o + 24) 0x4E21) (o + 22) 0)
      (o + 18) 0x4E21

dated-other :
    (b : Buffer) (o j : ℕ)
    → (j < o + 14) ⊎ ((o + 20 ≤ j) × (j < o + 22)) ⊎ (o + 26 ≤ j)
    → dated b o j ≡ b j
unfolding set16
dated-other b o j h = ground arith

module _ (b : Buffer) (o : ℕ) (name : CString) (attrs cluster size : ℕ) where
  abbrev composed : Buffer
  composed = compose_entry b o name attrs cluster size

  abbrev short : List ℕ × List ℕ
  short = string_to_short_name name

  abbrev named : Buffer
  named = put_bytes (put_bytes (memset b o 0 32) o short.0) (o + 8) short.1

  abbrev placed : Buffer
  placed = set_first_cluster (update named (o + 11) attrs) o cluster

  -- The first 12 bytes are left by all that is written behind them.
  composed-front : (j : ℕ) → j < o + 12 → composed j ≡ update named (o + 11) attrs j
  unfolding compose_entry set_size set_first_cluster set32 set16
  composed-front j h = ground arith

  composed-high :
      (j : ℕ)
      → o + 20 ≤ j
      → j < o + 22
      → composed j ≡ set16 (update named (o + 11) attrs) (o + 20) (cluster / 2 ^ 16 % 2 ^ 16) j
  unfolding compose_entry set_size set_first_cluster set32 set16
  composed-high j lo hi = ground arith

  composed-back : (j : ℕ) → o + 26 ≤ j → composed j ≡ set_size placed o size j
  unfolding compose_entry
  composed-back j h = dated-other (set_size placed o size) o j (inr (inr h))

  composed-low :
      (j : ℕ)
      → o + 26 ≤ j
      → j < o + 28
      → composed j
        ≡ set16
            (set16 (update named (o + 11) attrs) (o + 20) (cluster / 2 ^ 16 % 2 ^ 16))
            (o + 26)
            (cluster % 2 ^ 16)
            j
  composed-low j lo hi =
      composed-back j lo ∙ unfold set_size set_first_cluster set32 in ground arith

  composed-stem : bytes_from composed o 8 ≡ short.0
  composed-stem =
      bytes_from-ext composed (put_bytes (memset b o 0 32) o short.0) o 8 (λ j lo hi.
        composed-front j (omega arith)
        ∙ ground (
          arith,
          put_bytes-other (put_bytes (memset b o 0 32) o short.0) (o + 8) short.1 j
              (inl (omega arith)),
        ))
      ∙ ap (bytes_from (put_bytes (memset b o 0 32) o short.0) o) (sym (short-length name).0)
      ∙ bytes_from-put_bytes (memset b o 0 32) o short.0

  composed-extension : bytes_from composed (o + 8) 3 ≡ short.1
  composed-extension =
      bytes_from-ext composed named (o + 8) 3
        (λ j lo hi. composed-front j (omega arith) ∙ ground arith)
      ∙ ap (bytes_from named (o + 8)) (sym (short-length name).1)
      ∙ bytes_from-put_bytes (put_bytes (memset b o 0 32) o short.0) (o + 8) short.1

  -- The fields that `fat32_find_entry` reads from an entry are what `fat32_create_entry`
  -- composed it of: the short form of the name, the attributes, and a size and a first cluster
  -- below 2^32.
  pub info_at-compose_entry :
      size < 2 ^ 32
      → cluster < 2 ^ 32
      → ((info_at composed o).name ≡ short_name_of name)
        × ((info_at composed o).attributes ≡ attrs)
        × ((info_at composed o).size ≡ size)
        × ((info_at composed o).first_cluster ≡ cluster)
  unfolding info_at entry_name
  info_at-compose_entry size_word cluster_word = (
    ap₂ short_name_to_string composed-stem composed-extension,
    composed-front (o + 11) (omega arith) ∙ ground arith,
    get32-ext composed (set_size placed o size) (o + 28) (λ j lo hi. composed-back j (omega arith))
        ∙ unfold set_size in get32-set32_self placed (o + 28) size size_word,
    cluster_back,
  )
    where
      high : get16 composed (o + 20) ≡ cluster / 2 ^ 16 % 2 ^ 16
      high =
          get16-ext composed _ (o + 20) (λ j lo hi. composed-high j lo (omega arith))
          ∙ get16-set16_self (update named (o + 11) attrs) (o + 20) (cluster / 2 ^ 16 % 2 ^ 16)
              (omega arith)

      low : get16 composed (o + 26) ≡ cluster % 2 ^ 16
      low =
          get16-ext composed _ (o + 26) (λ j lo hi. composed-low j lo (omega arith))
          ∙ get16-set16_self
              (set16 (update named (o + 11) attrs) (o + 20) (cluster / 2 ^ 16 % 2 ^ 16)) (o + 26)
              (cluster % 2 ^ 16) (omega arith)

      cluster_back : get16 composed (o + 20) * 2 ^ 16 + get16 composed (o + 26) ≡ cluster
      cluster_back = omega (arith, high, low)
