-- ===== src/Kernel/Elf/Bytes.antt =====
-- The copies within the memory, address by address.
use hazle_os.Prelude.{
  ℕ, zero, suc, ◌+◌, ◌≤◌, ◌<◌, ◌^◌, ◌≡◌, refl, ◌∙◌, arith, Buffer, u32, sub32, ◌==◌, true, false,
  ap,
}
use hazle_os.Kernel.Elf.{copy_bytes, clear_bytes}

pub copy_bytes-outside :
    (n dest src : ℕ) (memory : Buffer) (a : ℕ)
    → a < 2 ^ 32
    → n ≤ sub32 a dest
    → copy_bytes n dest src memory a ≡ memory a
unfolding copy_bytes
copy_bytes-outside zero dest src memory a word far = refl
copy_bytes-outside (suc n) dest src memory a word far =
    let other : (a == u32 dest) ≡ false = ground arith in
    copy_bytes-outside n (dest + 1) (src + 1) _ a word (omega arith) ∙ rw other refl

pub clear_bytes-outside :
    (n dest : ℕ) (memory : Buffer) (a : ℕ)
    → a < 2 ^ 32
    → n ≤ sub32 a dest
    → clear_bytes n dest memory a ≡ memory a
unfolding clear_bytes
clear_bytes-outside zero dest memory a word far = refl
clear_bytes-outside (suc n) dest memory a word far =
    let other : (a == u32 dest) ≡ false = ground arith in
    clear_bytes-outside n (dest + 1) _ a word (omega arith) ∙ rw other refl

-- A copy from bytes that it does not write.
pub copy_bytes-inside :
    (n dest src : ℕ) (memory : Buffer) (j : ℕ)
    → n < 2 ^ 32
    → ((i : ℕ) → i < n → n ≤ sub32 (u32 (src + i)) dest)
    → j < n
    → copy_bytes n dest src memory (u32 (dest + j)) ≡ memory (u32 (src + j))
unfolding copy_bytes
copy_bytes-inside zero dest src memory j small apart inside = absurd (omega arith)
copy_bytes-inside (suc n) dest src memory zero small apart inside =
    let first : (u32 (dest + 0) == u32 dest) ≡ true = ground arith in
    copy_bytes-outside n (dest + 1) (src + 1) _ (u32 (dest + 0)) (omega arith) (omega arith)
    ∙ rw first (ap (λ a. memory (u32 a)) (omega arith))
copy_bytes-inside (suc n) dest src memory (suc j) small apart inside =
    let next : u32 (dest + suc j) ≡ u32 (dest + 1 + j) = ap u32 (omega arith) in
    let from : u32 (src + suc j) ≡ u32 (src + 1 + j) = ap u32 (omega arith) in
    let kept : (u32 (src + 1 + j) == u32 dest) ≡ false = ground (arith, apart (suc j) inside) in
    rw (next, from)
      (copy_bytes-inside n (dest + 1) (src + 1) _ j (omega arith)
          (λ i below. omega (arith, apart (suc i) (omega arith))) (omega arith)
        ∙ rw kept refl)

pub clear_bytes-inside :
    (n dest : ℕ) (memory : Buffer) (j : ℕ)
    → n < 2 ^ 32
    → j < n
    → clear_bytes n dest memory (u32 (dest + j)) ≡ 0
unfolding clear_bytes
clear_bytes-inside zero dest memory j small inside = absurd (omega arith)
clear_bytes-inside (suc n) dest memory zero small inside =
    let first : (u32 (dest + 0) == u32 dest) ≡ true = ground arith in
    clear_bytes-outside n (dest + 1) _ (u32 (dest + 0)) (omega arith) (omega arith) ∙ rw first refl
clear_bytes-inside (suc n) dest memory (suc j) small inside =
    let next : u32 (dest + suc j) ≡ u32 (dest + 1 + j) = ap u32 (omega arith) in
    rw next (clear_bytes-inside n (dest + 1) _ j (omega arith) (omega arith))
