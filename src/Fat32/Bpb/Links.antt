-- ===== src/Fat32/Bpb/Links.antt =====
-- `fat32_is_eoc` on the links of a chain.
use hazle_os.Prelude.{ℕ, ◌≡◌, true, false, arith, leb, ltb}
use hazle_os.Fat32.Table.{in_chain}
use hazle_os.Fat32.Bpb.{is_eoc}

-- A link that leads on is no end of a chain.
pub is_eoc-in_chain : (c : ℕ) → in_chain c ≡ true → is_eoc c ≡ false
unfolding is_eoc
is_eoc-in_chain c h = ground arith

pub in_chain-leb : (c : ℕ) → in_chain c ≡ true → leb 2 c ≡ true
in_chain-leb c h = ground arith

-- A link that neither leads on nor marks the end is 0 or 1.
pub in_chain-ltb : (c : ℕ) → in_chain c ≡ false → is_eoc c ≡ false → ltb c 2 ≡ true
unfolding is_eoc
in_chain-ltb c h no_mark = ground arith

pub in_chain-ge : (c : ℕ) → in_chain c ≡ true → ltb c 2 ≡ false
in_chain-ge c h = ground arith
