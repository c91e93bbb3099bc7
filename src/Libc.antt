-- ===== src/Libc.antt =====
-- lib/string.c. A C string is the list of its characters before the final zero byte; reading
-- at its end gives zero. A character is its byte.
pub mod Compare
pub mod Copy
pub mod Tokens
pub mod Numbers
pub mod Tests
use mathlib.Core.List.{reverse}
use hazle_os.Prelude.{
  ℕ, zero, suc, ◌+◌, ◌-◌, ◌*◌, ◌/◌, ◌%◌, ◌^◌, Bool, true, false, not, ◌&&◌, ◌||◌, List, [], ◌∷◌,
  ◌++◌, Option, none, some, leb, ltb, ◌==◌, ◌≢◌, if◌then◌else◌, Buffer, u32, ℤ, pos, negsuc, neg,
  sub_ℕ, signed32, length,
}

abbrev pub CString : Type 0
CString = List ℕ

abbrev pub IsCString : CString → Type 0
IsCString [] = Unit {0}
IsCString (c ∷ s) = (c ≢ 0) × IsCString s

-- The string in an array of `n` characters, from index `i` on.
unfoldable pub string_in : (n i : ℕ) → Buffer → CString
string_in zero i b = []
string_in (suc n) i b = elim (b i == 0) [ true ↦ [] | false ↦ b i ∷ string_in n (i + 1) b ]

abbrev pub strlen : CString → ℕ
strlen s = length s

-- `*str`
abbrev pub head_char : CString → ℕ
head_char [] = 0
head_char (c ∷ s) = c

unfoldable pub strcmp : CString → CString → ℤ
strcmp [] t = sub_ℕ 0 (head_char t)
strcmp (c ∷ s) [] = sub_ℕ c 0
strcmp (c ∷ s) (d ∷ t) = if c == d then strcmp s t else sub_ℕ c d

-- `strcmp(s, t) == 0`
abbrev pub is_zero : ℤ → Bool
is_zero (pos n) = n == 0
is_zero (negsuc n) = false

pub strncmp : CString → CString → ℕ → ℤ
strncmp s t zero = pos 0
strncmp [] t (suc n) = sub_ℕ 0 (head_char t)
strncmp (c ∷ s) [] (suc n) = sub_ℕ c 0
strncmp (c ∷ s) (d ∷ t) (suc n) = if c == d then strncmp s t n else sub_ℕ c d

-- `strcpy(buffer + at, src)`: the characters and the zero byte.
unfoldable pub strcpy : Buffer → ℕ → CString → Buffer
strcpy dest at [] j = if j == at then 0 else dest j
strcpy dest at (c ∷ s) j = if j == at then c else strcpy dest (at + 1) s j

-- `strncpy(buffer + at, src, n)`: at most `n` characters, then zero bytes up to `n`.
pub strncpy : Buffer → ℕ → CString → ℕ → Buffer
strncpy dest at s zero j = dest j
strncpy dest at [] (suc n) j = if j == at then 0 else strncpy dest (at + 1) [] n j
strncpy dest at (c ∷ s) (suc n) j = if j == at then c else strncpy dest (at + 1) s n j

-- `memset(buffer + at, value, num)`
pub memset : Buffer → ℕ → ℕ → ℕ → Buffer
memset dest at value zero j = dest j
memset dest at value (suc n) j = if j == at then value % 2 ^ 8 else memset dest (at + 1) value n j

-- `memcpy(dest + to, src + from, n)`, of buffers that do not overlap.
pub memcpy : Buffer → ℕ → Buffer → ℕ → ℕ → Buffer
memcpy dest to src from zero j = dest j
memcpy dest to src from (suc n) j =
    if j == to then src from else memcpy dest (to + 1) src (from + 1) n j

pub memcmp : Buffer → Buffer → (at num : ℕ) → ℤ
memcmp p q at zero = pos 0
memcmp p q at (suc n) = if p at == q at then memcmp p q (at + 1) n else sub_ℕ (p at) (q at)

-- `strchr(str, c) != NULL`
unfoldable pub strchr : CString → ℕ → Bool
strchr [] c = false
strchr (d ∷ s) c = if d == c then true else strchr s c

-- The first loop of `strtok`: `saveptr` moves past delimiters.
pub skip_delim : CString → CString → CString
skip_delim delim [] = []
skip_delim delim (c ∷ s) = if strchr delim c then skip_delim delim s else c ∷ s

-- The second loop: the token, and what `saveptr` is left with; `none` is the null pointer. The zero
-- byte that `strtok` writes over the delimiter ends the token.
pub take_token : CString → CString → CString × Option CString
take_token delim [] = ([], none)
take_token delim (c ∷ s) =
    let (token, rest) = take_token delim s in
    if strchr delim c then ([], some s) else (c ∷ token, rest)

pub token_of : CString → CString → Option CString × Option CString
token_of delim [] = (none, none)
token_of delim (c ∷ s) = let (token, rest) = take_token delim (c ∷ s) in (some token, rest)

-- `strtok(str, delim)` with `strtok_saveptr`; `none` for `str` is the null pointer.
pub strtok :
    (str : Option CString) (delim : CString) (saveptr : Option CString)
    → Option CString × Option CString
strtok (some s) delim saveptr = token_of delim (skip_delim delim s)
strtok none delim none = (none, none)
strtok none delim (some s) = token_of delim (skip_delim delim s)

-- `while (token) token = strtok(NULL, delim);`: the tokens from here on, at most `fuel` of them.
pub tokens_from : ℕ → CString → Option CString × Option CString → List CString
tokens_from zero delim found = []
tokens_from (suc fuel) delim (none, saveptr) = []
tokens_from (suc fuel) delim (some token, saveptr) =
    token ∷ tokens_from fuel delim (strtok none delim saveptr)

pub is_digit : ℕ → Bool
is_digit c = leb b'0' c && leb c b'9'

unfoldable pub skip_spaces : CString → CString
skip_spaces [] = []
skip_spaces (c ∷ s) = if c == b' ' then skip_spaces s else c ∷ s

-- The digits loop of `atoi`, on the 32-bit pattern of `result`.
pub atoi_digits : ℕ → CString → ℕ
unfolding is_digit
atoi_digits result [] = result
atoi_digits result (c ∷ s) =
    if is_digit c then atoi_digits (u32 (result * 10 + (c - b'0'))) s else result

pub atoi_sign : CString → ℤ
atoi_sign [] = pos 0
atoi_sign (c ∷ s) =
    if c == b'-'
    then signed32 (u32 (2 ^ 32 - atoi_digits 0 s))
    else if c == b'+'
    then signed32 (atoi_digits 0 s)
    else signed32 (atoi_digits 0 (c ∷ s))

pub atoi : CString → ℤ
atoi s = atoi_sign (skip_spaces s)

pub digit_char : ℕ → ℕ
digit_char d = if ltb d 10 then d + b'0' else d - 10 + b'a'

-- The digit loop of `itoa`: lowest digit first. `fuel` bounds the rounds of `while (value)`.
pub itoa_digits : ℕ → ℕ → ℕ → CString
unfolding digit_char
itoa_digits zero value base = []
itoa_digits (suc fuel) value base =
    let rest = itoa_digits fuel (value / base) base in
    if value == 0 then [] else digit_char (value % base) ∷ rest

-- The digits in order, as the reversal in place leaves them. 32 rounds are enough in every base.
pub itoa_unsigned : ℕ → ℕ → CString
itoa_unsigned value base = if value == 0 then b'0' ∷ [] else reverse (itoa_digits 32 value base)

-- A negative value is only meant in base 10: in the others C's `%` gives negative digits, and
-- `none` stands for that text, as for -2^31, whose negation overflows.
pub itoa : ℤ → ℕ → Option CString
itoa value base = if ltb base 2 || ltb 36 base then some [] else elim value [
  | pos n ↦ some (itoa_unsigned n base)
  | negsuc n ↦
      if (base == 10) && ltb (n + 1) (2 ^ 31)
      then some (b'-' ∷ itoa_unsigned (n + 1) base)
      else none
]
