-- ===== src/Fat32/Directory/Listing/Visible.antt =====
-- The listing of one cluster against the entries that are visible in it.
use hazle_os.Prelude.{
  ℕ, zero, suc, ◌+◌, ◌-◌, ◌*◌, ◌<◌, ◌≤◌, ◌≡◌, refl, ap, ap₂, sym, ◌∙◌, Bool, true, false, ◌||◌, ◌⊎◌,
  inl, inr, List, [], ◌∷◌, ◌++◌, map, take, length, arith, ltb, ◌==◌, if◌then◌else◌, Buffer,
  Bool-cases, length-append, append_assoc, append_nil, take_none, take-append, rest-take,
}
use hazle_os.Fat32.Directory.Entry.{
  FileInfo, info_at, attributes, attr_lfn, entry_end, entry_free, is_volume_id, skipped_by_find,
}
use hazle_os.Fat32.Directory.Listing.{Progress, LongName, list_entry, list_cluster, listed}

-- The entries before the mark that ends a directory which are neither free nor a part of a long
-- name nor a volume label, in order.
pub visible : (n i : ℕ) → Buffer → List FileInfo
visible zero i b = []
visible (suc n) i b =
    let rest = visible n (i + 1) b in
    if b (i * 32) == entry_end
    then []
    else if (b (i * 32) == entry_free) || skipped_by_find (attributes b (i * 32))
    then rest
    else info_at b (i * 32) ∷ rest

pub has_end : (n i : ℕ) → Buffer → Bool
has_end zero i b = false
has_end (suc n) i b =
    let rest = has_end n (i + 1) b in if b (i * 32) == entry_end then true else rest

-- An entry but for its name, which long-name entries may replace.
abbrev pub nameless : FileInfo → FileInfo
nameless info = record info { name = [] }

abbrev pub facts : List FileInfo → List FileInfo
facts l = map nameless l

pub facts-append : (k l : List FileInfo) → facts (k ++ l) ≡ facts k ++ facts l
facts-append [] l = refl
facts-append (x ∷ k) l = ap (λ m. nameless x ∷ m) (facts-append k l)

pub length-facts : (l : List FileInfo) → length (facts l) ≡ length l
length-facts [] = refl
length-facts (x ∷ l) = ap suc (length-facts l)

nameless-listed :
    (b : Buffer) (o : ℕ) (l : LongName) → nameless (listed b o l) ≡ nameless (info_at b o)
unfolding listed
nameless-listed b o l = elim (Bool-cases l.has_lfn) [
  | inl long ↦ rw (long, listed) refl
  | inr short ↦ rw (short, listed) refl
]

-- A step of the loop adds a visible entry, and no other.
list_entry-facts :
    (b : Buffer) (o : ℕ) (p : Progress)
    → facts (list_entry b o p).entries ≡ (
        if skipped_by_find (attributes b o)
        then facts p.entries
        else facts p.entries ++ nameless (info_at b o) ∷ [])
unfolding list_entry skipped_by_find
list_entry-facts b o p = elim (Bool-cases (attributes b o == attr_lfn)) [
  | inl part ↦ rw (part, list_entry) refl
  | inr other ↦ elim (Bool-cases (is_volume_id (attributes b o))) [
    | inl label ↦ rw (other, label, list_entry) refl
    | inr entry ↦
        rw (other, entry, list_entry)
          (facts-append p.entries (listed b o p.long_name ∷ [])
            ∙ ap (λ x. facts p.entries ++ x ∷ []) (nameless-listed b o p.long_name))
  ]
]

-- What a listing adds to the entries `k`, as far as there is place for what was found.
abbrev pub Lists : (max : ℕ) (k l found : List FileInfo) → Type 0
Lists max k l found = facts l ≡ facts k ++ take (max - length k) (facts found)

-- After the listing of a cluster: its end was met, or there was none, or the places are all taken.
abbrev pub Stopped : (max n i : ℕ) → Buffer → Bool × Progress → Type 0
Stopped max n i b (true, q) = has_end n i b ≡ true
Stopped max n i b (false, q) = (has_end n i b ≡ false) ⊎ (max ≤ length q.entries)

take_nil : {A : Type 0} (n : ℕ) → take {A = A} n [] ≡ []
take_nil zero = refl
take_nil (suc n) = refl

pub Lists-nothing : (max : ℕ) (k l : List FileInfo) → facts l ≡ facts k → Lists max k l []
Lists-nothing max k l e =
    e ∙ sym (append_nil (facts k)) ∙ ap (λ m. facts k ++ m) (sym (take_nil (max - length k)))

-- With no place left nothing more is listed.
pub Lists-full : (max : ℕ) (k found : List FileInfo) → max ≤ length k → Lists max k k found
Lists-full max k found full = sym (
    ap (λ l. facts k ++ l) (take_none (max - length k) (facts found) (omega arith))
    ∙ append_nil (facts k))

-- Then it does not matter what was found.
pub Lists-full_any :
    (max : ℕ) (k l found other : List FileInfo)
    → max ≤ length k
    → Lists max k l found
    → Lists max k l other
Lists-full_any max k l found other full e =
    let none_left : max - length k ≡ 0 = omega arith in
    e
    ∙ ap (λ u. facts k ++ u)
        (take_none (max - length k) (facts found) none_left
          ∙ sym (take_none (max - length k) (facts other) none_left))

-- How many places are left after a listing.
left_after :
    (max : ℕ) (k l found : List FileInfo)
    → Lists max k l found
    → max - length l ≡ max - length k - length (facts found)
left_after max k l found e =
    let count = ap length e ∙ length-append (facts k) (take (max - length k) (facts found)) in
    omega (arith, count, length-facts k, length-facts l, rest-take (max - length k) (facts found))

pub Lists-trans :
    (max : ℕ) (k l m found more : List FileInfo)
    → Lists max k l found
    → Lists max l m more
    → Lists max k m (found ++ more)
Lists-trans max k l m found more d e =
    let n = max - length k in
    let joined : take n (facts (found ++ more))
        ≡ take n (facts found) ++ take (n - length (facts found)) (facts more) =
      ap (λ l. take n l) (facts-append found more) ∙ take-append n (facts found) (facts more) in
    let parts : facts l ++ take (max - length l) (facts more)
        ≡ (facts k ++ take n (facts found)) ++ take (n - length (facts found)) (facts more) =
      ap₂ (λ u n. u ++ take n (facts more)) d (left_after max k l found d) in
    e
    ∙ parts
    ∙ append_assoc (facts k) (take n (facts found)) (take (n - length (facts found)) (facts more))
    ∙ ap (λ u. facts k ++ u) (sym joined)

-- What one entry in use adds.
abbrev shown : Buffer → ℕ → List FileInfo
shown b o = if skipped_by_find (attributes b o) then [] else info_at b o ∷ []

list_entry-Lists :
    (max : ℕ) (b : Buffer) (o : ℕ) (p : Progress)
    → length p.entries < max
    → Lists max p.entries (list_entry b o p).entries (shown b o)
list_entry-Lists max b o p room = elim (Bool-cases (skipped_by_find (attributes b o))) [
  | inl hidden ↦ rw hidden (
      Lists-nothing max p.entries (list_entry b o p).entries
        (list_entry-facts b o p ∙ rw hidden refl))
  | inr seen ↦
      rw seen (list_entry-facts b o p ∙ rw seen (one (max - length p.entries) (omega arith)))
]
  where
    one :
        (n : ℕ)
        → 0 < n
        → facts p.entries ++ nameless (info_at b o) ∷ []
          ≡ facts p.entries ++ take n (nameless (info_at b o) ∷ [])
    one zero h = absurd (omega arith)
    one (suc n) h = ap (λ l. facts p.entries ++ nameless (info_at b o) ∷ l) (sym (take_nil n))

visible_free :
    (n i : ℕ) (b : Buffer)
    → (b (i * 32) == entry_end) ≡ false
    → (b (i * 32) == entry_free) ≡ true
    → visible (suc n) i b ≡ visible n (i + 1) b
unfolding visible
visible_free n i b more free = rw (more, free) refl

visible_used :
    (n i : ℕ) (b : Buffer)
    → (b (i * 32) == entry_end) ≡ false
    → (b (i * 32) == entry_free) ≡ false
    → visible (suc n) i b ≡ shown b (i * 32) ++ visible n (i + 1) b
unfolding visible
visible_used n i b more used = elim (Bool-cases (skipped_by_find (attributes b (i * 32)))) [
  | inl hidden ↦ rw (more, used, hidden) refl
  | inr seen ↦ rw (more, used, seen) refl
]

pub Stopped-end :
    (max n i : ℕ) (b : Buffer) (r : Bool × Progress)
    → r.0 ≡ true
    → Stopped max n i b r
    → has_end n i b ≡ true
Stopped-end max n i b (true, q) e s = s
Stopped-end max n i b (false, q) e s = absurd (cc)

pub Stopped-more :
    (max n i : ℕ) (b : Buffer) (r : Bool × Progress)
    → r.0 ≡ false
    → Stopped max n i b r
    → (has_end n i b ≡ false) ⊎ (max ≤ length r.1.entries)
Stopped-more max n i b (true, q) e s = absurd (cc)
Stopped-more max n i b (false, q) e s = s

has_end_further :
    (n i : ℕ) (b : Buffer)
    → (b (i * 32) == entry_end) ≡ false
    → has_end (suc n) i b ≡ has_end n (i + 1) b
unfolding has_end
has_end_further n i b more = rw more refl

Stopped-further :
    (max n i : ℕ) (b : Buffer) (r : Bool × Progress)
    → (b (i * 32) == entry_end) ≡ false
    → Stopped max n (i + 1) b r
    → Stopped max (suc n) i b r
Stopped-further max n i b (true, q) more s = has_end_further n i b more ∙ s
Stopped-further max n i b (false, q) more (inl none_met) =
    inl (has_end_further n i b more ∙ none_met)
Stopped-further max n i b (false, q) more (inr full) = inr full

pub list_cluster-Lists :
    (max n i : ℕ) (b : Buffer) (p : Progress)
    → Lists max p.entries (list_cluster max n i b p).1.entries (visible n i b)
      × Stopped max n i b (list_cluster max n i b p)
unfolding list_cluster
list_cluster-Lists max zero i b p =
    unfold visible has_end in (Lists-nothing max p.entries p.entries refl, inl refl)
list_cluster-Lists max (suc n) i b p = elim (Bool-cases (ltb (length p.entries) max)) [
  | inr full ↦
      rw (full, list_cluster)
        (Lists-full max p.entries (visible (suc n) i b) (ground arith), inr (ground arith))
  | inl room ↦ elim (Bool-cases (b (i * 32) == entry_end)) [
    | inl end ↦
        rw (room, end, list_cluster)
          (unfold visible has_end in rw end (Lists-nothing max p.entries p.entries refl, refl))
    | inr more ↦ elim (Bool-cases (b (i * 32) == entry_free)) [
      | inl free ↦
          let (lists, stopped) = list_cluster-Lists max n (i + 1) b p in
          rw (room, more, free, list_cluster, visible_free n i b more free)
            (lists, Stopped-further max n i b (list_cluster max n (i + 1) b p) more stopped)
      | inr used ↦
          let q = list_entry b (i * 32) p in
          let (lists, stopped) = list_cluster-Lists max n (i + 1) b q in
          rw (room, more, used, list_cluster, visible_used n i b more used)
            (
              Lists-trans max p.entries q.entries (list_cluster max n (i + 1) b q).1.entries
                  (shown b (i * 32)) (visible n (i + 1) b)
                  (list_entry-Lists max b (i * 32) p (ground arith)) lists,
              Stopped-further max n i b (list_cluster max n (i + 1) b q) more stopped,
            )
    ]
  ]
]
