-- ===== src/Userlib.antt =====
-- userlib/hazle.c: the library of programs. `Calls` has the calls of the system; the string
-- functions here repeat those of lib/string.c.
pub mod Calls
pub mod Same
pub mod Tests
use hazle_os.Prelude.{
  ℕ, zero, suc, ◌+◌, ◌-◌, ◌*◌, ◌^◌, Bool, true, false, not, ◌&&◌, List, [], ◌∷◌, leb, ◌==◌,
  if◌then◌else◌, Buffer, update, u32, u8, ℤ, pos, sub_ℕ, signed32,
}
use hazle_os.Libc.{CString, head_char}

-- The character at a pointer; behind the end there is the zero byte.
abbrev pub tail : CString → CString
tail [] = []
tail (c ∷ s) = s

-- `while (s[len]) len++;` from `len` on.
pub strlen : CString → (len : ℕ) → ℕ
strlen [] len = len
strlen (c ∷ s) len = strlen s (len + 1)

-- `while (*s1 && (*s1 == *s2))`
pub strcmp : CString → CString → ℤ
strcmp [] t = sub_ℕ 0 (head_char t)
strcmp (c ∷ s) t = elim (not (c == 0) && (c == head_char t)) [
  | true ↦ strcmp s (tail t)
  | false ↦ sub_ℕ c (head_char t)
]

-- `while (*src) *dest++ = *src++; *dest = '\0';`
pub strcpy : Buffer → (dest : ℕ) → CString → Buffer
strcpy m dest [] = update m dest 0
strcpy m dest (c ∷ src) = strcpy (update m dest c) (dest + 1) src

-- `while (num--) *p++ = (unsigned char)value;`
pub memset : (m : Buffer) (p value num : ℕ) → Buffer
memset m p value zero = m
memset m p value (suc num) = memset (update m p (u8 value)) (p + 1) value num

-- `while (n--) *d++ = *s++;` within one memory, byte by byte.
pub memcpy : (m : Buffer) (d s n : ℕ) → Buffer
memcpy m d s zero = m
memcpy m d s (suc n) = memcpy (update m d (m s)) (d + 1) (s + 1) n
