-- ===== src/Libc/Tests.antt =====
-- The theorems on lib/string.c at concrete strings.
use hazle_os.Prelude.{◌≡◌, [], ◌∷◌, some, none, arith, neg}
use hazle_os.Libc.{CString, strtok, tokens_from, itoa, atoi}
use hazle_os.Libc.Tokens.{split, nonempty, strtok-split}
use hazle_os.Libc.Numbers.{atoi-itoa}

abbrev ls : CString
ls = b'l' ∷ b's' ∷ []

abbrev lst : CString
lst = b'l' ∷ b's' ∷ b't' ∷ []

abbrev path : CString
path = b'/' ∷ b'a' ∷ b'/' ∷ b'/' ∷ b'b' ∷ []

abbrev slash : CString
slash = b'/' ∷ []

strtok-split_example :
    tokens_from 6 slash (strtok (some path) slash none) ≡ nonempty (split slash path)
strtok-split_example = strtok-split slash path none

atoi-itoa_example : (s : CString) × (itoa (neg 70) 10 ≡ some s) × (atoi s ≡ neg 70)
atoi-itoa_example = atoi-itoa (neg 70) (omega arith)
