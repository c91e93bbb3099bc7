-- ===== src/Fat32/Directory/Listing/Overrun.antt =====
-- When the characters of a long name stay within the array for them.
use hazle_os.Prelude.{
  ℕ, zero, suc, ◌+◌, ◌*◌, ◌%◌, ◌^◌, ◌<◌, ◌≤◌, ◌≡◌, refl, ◌∙◌, Bool, true, false, ◌||◌, ◌&&◌, arith,
  leb, ltb, ◌==◌, ==_iff, length, Buffer, get16, has_bit, Bool-cases, inl, inr, if◌then◌else◌,
}
use hazle_os.Libc.{memset}
use hazle_os.Fat32.Directory.Entry.{attributes, attr_lfn, entry_end, entry_free, is_volume_id}
use hazle_os.Fat32.Directory.Listing.{
  LongName, Progress, put_char, extract_part, extract_lfn_chars, order, long_entry, list_entry,
  list_cluster,
}

put_char-inside :
    (place c : ℕ) (l : LongName)
    → 13 ≤ place
    → place < 269
    → (put_char place c l).overrun ≡ l.overrun
unfolding put_char
put_char-inside place c l low high =
    let inside : (leb 13 place && ltb place (13 + 256)) ≡ true = ground arith in rw inside refl

extract_part-inside :
    (n : ℕ) (b : Buffer) (o place : ℕ) (l : LongName)
    → 13 ≤ place
    → place + n ≤ 269
    → ((extract_part n b o place l).1.overrun ≡ l.overrun)
      × (place ≤ (extract_part n b o place l).0)
      × ((extract_part n b o place l).0 ≤ place + n)
unfolding extract_part
extract_part-inside zero b o place l low high = (refl, omega arith, omega arith)
extract_part-inside (suc n) b o place l low high =
    elim (Bool-cases ((get16 b o == 0xFFFF) || (get16 b o == 0))) [
      | inl ended ↦ rw (ended, extract_part) (refl, omega arith, omega arith)
      | inr more ↦
          let (kept, above, below) =
            extract_part-inside n b (o + 2) (place + 1) (put_char place (get16 b o % 2 ^ 8) l)
              (omega arith) (omega arith) in
          rw (more, extract_part)
            (
              kept ∙ put_char-inside place (get16 b o % 2 ^ 8) l low (omega arith),
              omega (arith, above),
              omega (arith, below),
            )
    ]

extract_lfn_chars-inside :
    (b : Buffer) (o place : ℕ) (l : LongName)
    → 13 ≤ place
    → place ≤ 256
    → (extract_lfn_chars b o place l).overrun ≡ l.overrun
unfolding extract_lfn_chars
extract_lfn_chars-inside b o place l low high =
    let first = extract_part 5 b (o + 1) place l in
    let (kept1, above1, below1) = extract_part-inside 5 b (o + 1) place l low (omega arith) in
    let second = extract_part 6 b (o + 14) first.0 first.1 in
    let (kept2, above2, below2) =
      extract_part-inside 6 b (o + 14) first.0 first.1 (omega (arith, above1))
        (omega (arith, below1)) in
    let (kept3, above3, below3) =
      extract_part-inside 2 b (o + 28) second.0 second.1 (omega (arith, above1, above2))
        (omega (arith, below1, below2)) in
    kept3 ∙ kept2 ∙ kept1

overrun-if :
    (t : Bool) (x y : LongName) (z : Bool)
    → x.overrun ≡ z
    → y.overrun ≡ z
    → (if t then x else y).overrun ≡ z
overrun-if true x y z hx hy = hx
overrun-if false x y z hx hy = hy

-- A part of a long name whose order is 1 to 19 writes only within the array of 256 bytes.
pub long_entry-inside :
    (b : Buffer) (o : ℕ) (l : LongName)
    → 0 < order b o
    → order b o < 20
    → (long_entry b o l).overrun ≡ l.overrun
unfolding long_entry
long_entry-inside b o l low high = elim (Bool-cases (has_bit (b o) 6)) [
  | inl first ↦
      rw (first, long_entry)
        (extracted (record l { lfn_buffer = memset l.lfn_buffer 0 0 256; has_lfn = true }))
  | inr later ↦ rw (later, long_entry) (extracted l)
]
  where
    extracted :
        (m : LongName)
        → (if m.has_lfn then extract_lfn_chars b o (order b o * 13) m else m).overrun ≡ m.overrun
    extracted m =
        overrun-if m.has_lfn (extract_lfn_chars b o (order b o * 13) m) m m.overrun
          (extract_lfn_chars-inside b o (order b o * 13) m (omega arith) (omega arith)) refl

-- An entry with a part of a long name has an order for which there is room.
abbrev pub IsPlaced : Buffer → ℕ → Type 0
IsPlaced b o = attributes b o ≡ attr_lfn → (0 < order b o) × (order b o < 20)

list_entry-inside :
    (b : Buffer) (o : ℕ) (p : Progress)
    → IsPlaced b o
    → (list_entry b o p).long_name.overrun ≡ p.long_name.overrun
unfolding list_entry
list_entry-inside b o p placed = elim (Bool-cases (attributes b o == attr_lfn)) [
  | inl name ↦
      let (low, high) = placed ((==_iff (attributes b o) attr_lfn).0 name) in
      rw (name, list_entry) (long_entry-inside b o p.long_name low high)
  | inr other ↦ elim (Bool-cases (is_volume_id (attributes b o))) [
    | inl label ↦ rw (other, label, list_entry) refl
    | inr file ↦ rw (other, file, list_entry) refl
  ]
]

-- A pass over the entries of a cluster stays within the array of the long name.
pub list_cluster-inside :
    (max n i : ℕ) (b : Buffer) (p : Progress)
    → ((k : ℕ) → i ≤ k → k < i + n → IsPlaced b (k * 32))
    → (list_cluster max n i b p).1.long_name.overrun ≡ p.long_name.overrun
unfolding list_cluster
list_cluster-inside max zero i b p placed = refl
list_cluster-inside max (suc n) i b p placed = elim (Bool-cases (ltb (length p.entries) max)) [
  | inr full ↦ rw (full, list_cluster) refl
  | inl room ↦ elim (Bool-cases (b (i * 32) == entry_end)) [
    | inl ended ↦ rw (room, ended, list_cluster) refl
    | inr more ↦
        let rest : (k : ℕ) → i + 1 ≤ k → k < i + 1 + n → IsPlaced b (k * 32) =
          λ k low high. placed k (omega arith) (omega arith) in
        elim (Bool-cases (b (i * 32) == entry_free)) [
          | inl free ↦
              rw (room, more, free, list_cluster) (list_cluster-inside max n (i + 1) b p rest)
          | inr used ↦
              rw (room, more, used, list_cluster)
                (list_cluster-inside max n (i + 1) b (list_entry b (i * 32) p) rest
                  ∙ list_entry-inside b (i * 32) p (placed i (omega arith) (omega arith)))
        ]
  ]
]
