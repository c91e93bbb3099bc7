-- ===== src/Userlib/Same.antt =====
-- The string functions of programs against those of the kernel.
use hazle_os.Prelude.{
  ℕ, zero, suc, ◌+◌, ◌<◌, ◌≡◌, refl, sym, ◌∙◌, inl, inr, true, false, not, ◌&&◌, [], ◌∷◌, arith,
  ◌==◌, leb, ltb, if◌then◌else◌, Bool-cases, Buffer, update, length, ◌%◌, ◌^◌,
}
use hazle_os.Libc.{CString, IsCString, head_char}
use hazle_os.Libc
use hazle_os.Libc.Copy.{memset-value}
use hazle_os.Userlib

strlen-length : (s : CString) (len : ℕ) → Userlib.strlen s len ≡ len + length s
unfolding Userlib.strlen
strlen-length [] len = omega arith
strlen-length (c ∷ s) len = omega (arith, strlen-length s (len + 1))

strcmp-same : (s t : CString) → IsCString s → IsCString t → Userlib.strcmp s t ≡ Libc.strcmp s t
unfolding Userlib.strcmp Libc.strcmp
strcmp-same [] t hs ht = refl
strcmp-same (c ∷ s) [] (nonzero, hs) ht =
    let differs : (not (c == 0) && (c == 0)) ≡ false = ground arith in
    rw (differs, Userlib.strcmp) refl
strcmp-same (c ∷ s) (d ∷ t) (nonzero, hs) (nonzero', ht) = elim (Bool-cases (c == d)) [
  | inl same ↦
      let goes_on : (not (c == 0) && (c == d)) ≡ true = ground arith in
      rw (goes_on, same, Userlib.strcmp) (strcmp-same s t hs ht)
  | inr other ↦
      let ends : (not (c == 0) && (c == d)) ≡ false = ground arith in
      rw (ends, other, Userlib.strcmp) refl
]

-- Only the byte at `j` matters for the byte at `j`, and nothing below the destination changes.
strcpy-local :
    (m m' : Buffer) (dest : ℕ) (s : CString) (j : ℕ)
    → m j ≡ m' j
    → Libc.strcpy m dest s j ≡ Libc.strcpy m' dest s j
unfolding Libc.strcpy
strcpy-local m m' dest [] j e = ground arith
strcpy-local m m' dest (c ∷ s) j e = ground (arith, strcpy-local m m' (dest + 1) s j e)

strcpy-below :
    (m : Buffer) (dest : ℕ) (s : CString) (j : ℕ) → j < dest → Libc.strcpy m dest s j ≡ m j
unfolding Libc.strcpy
strcpy-below m dest [] j h = ground arith
strcpy-below m dest (c ∷ s) j h = ground (arith, strcpy-below m (dest + 1) s j)

strcpy-same :
    (m : Buffer) (dest : ℕ) (s : CString) (j : ℕ)
    → Userlib.strcpy m dest s j ≡ Libc.strcpy m dest s j
unfolding Userlib.strcpy Libc.strcpy
strcpy-same m dest [] j = refl
strcpy-same m dest (c ∷ s) j =
    strcpy-same (update m dest c) (dest + 1) s j ∙ (elim (Bool-cases (j == dest)) [
      | inl here ↦
          let placed : update m dest c j ≡ c = rw here refl in
          rw here (strcpy-below (update m dest c) (dest + 1) s j (ground arith) ∙ placed)
      | inr there ↦
          let kept : update m dest c j ≡ m j = rw there refl in
          rw there (strcpy-local (update m dest c) m (dest + 1) s j kept)
    ])

memset-bytes :
    (m : Buffer) (p value num j : ℕ)
    → Userlib.memset m p value num j ≡ (if leb p j && ltb j (p + num) then value % 2 ^ 8 else m j)
unfolding Userlib.memset
memset-bytes m p value zero j = ground arith
memset-bytes m p value (suc num) j =
    ground (arith, memset-bytes (update m p (value % 2 ^ 8)) (p + 1) value num j)

-- The string functions that programs are linked with do what those of the kernel do: `strlen` counts
-- the characters, `strcmp` of two C strings gives the same number, and `strcpy` and `memset` leave
-- the same bytes.
pub userlib-libc :
    (s t : CString) (m : Buffer) (dest value num j : ℕ)
    → IsCString s
    → IsCString t
    → (Userlib.strlen s 0 ≡ Libc.strlen s)
      × (Userlib.strcmp s t ≡ Libc.strcmp s t)
      × (Userlib.strcpy m dest s j ≡ Libc.strcpy m dest s j)
      × (Userlib.memset m dest value num j ≡ Libc.memset m dest value num j)
userlib-libc s t m dest value num j hs ht = (
  strlen-length s 0 ∙ omega arith,
  strcmp-same s t hs ht,
  strcpy-same m dest s j,
  memset-bytes m dest value num j ∙ sym (memset-value m dest value num j),
)
