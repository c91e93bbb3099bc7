-- ===== src/Userlib/Tests.antt =====
-- The string functions of programs at concrete strings.
use hazle_os.Prelude.{◌≡◌, blank, codes, arith}
use hazle_os.Libc.{CString, IsCString}
use hazle_os.Libc
use hazle_os.Userlib
use hazle_os.Userlib.Same.{userlib-libc}

userlib-libc_example :
    (Userlib.strlen (codes "ls") 0 ≡ Libc.strlen (codes "ls"))
    × (Userlib.strcmp (codes "ls") (codes "lsa") ≡ Libc.strcmp (codes "ls") (codes "lsa"))
    × (Userlib.strcpy blank 8 (codes "ls") 9 ≡ Libc.strcpy blank 8 (codes "ls") 9)
    × (Userlib.memset blank 8 300 4 9 ≡ Libc.memset blank 8 300 4 9)
userlib-libc_example =
    userlib-libc (codes "ls") (codes "lsa") blank 8 300 4 9 (ground arith) (ground arith)
