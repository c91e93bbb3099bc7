-- ===== src/Fat32/Directory/Entry/Names.antt =====
-- A short name goes through its 11 bytes and back.
use mathlib.Core.List.{append-nil, map-append}
use hazle_os.Prelude.{
  ℕ, zero, suc, ◌<◌, ◌≤◌, ◌≡◌, ◌≢◌, refl, List, [], ◌∷◌, ◌++◌, map, arith, ap, ap₂, ◌∙◌, sym, some,
  none, ne→==, length,
}
use hazle_os.Libc.{CString}
use hazle_os.Fat32.Directory.Entry.{
  until_space, c_string, dotted, short_name_to_string, to_upper, split_last_dot, field,
  string_to_short_name,
}

-- The characters that a short name may hold: no zero byte, no space, no dot.
abbrev IsPlain : CString → Type 0
IsPlain [] = Unit {0}
IsPlain (c ∷ s) = (c ≢ 0) × (c ≢ b' ') × (c ≢ b'.') × (c < 256) × IsPlain s

to_upper-plain : (c : ℕ) → c ≢ 0 → c ≢ b' ' → (to_upper c ≢ 0) × (to_upper c ≢ b' ')
unfolding to_upper
to_upper-plain c h k = ground arith

until_space-field :
    (n : ℕ) (s : CString) → IsPlain s → length s ≤ n → until_space (field n s) ≡ map to_upper s
unfolding until_space field
until_space-field zero [] h small = refl
until_space-field zero (c ∷ s) h small = absurd (omega arith)
until_space-field (suc n) [] h small = refl
until_space-field (suc n) (c ∷ s) h small =
    ground (arith, to_upper-plain c h.0 h.1, until_space-field n s h.4 (omega arith))

dotted-field_cons :
    (c : ℕ) (s : CString)
    → IsPlain (c ∷ s)
    → length (c ∷ s) ≤ 3
    → dotted (field 3 (c ∷ s)) ≡ b'.' ∷ map to_upper (c ∷ s)
unfolding dotted
dotted-field_cons c s h small = step ∙ ap (λ t. b'.' ∷ t) (until_space-field 3 (c ∷ s) h small)
  where
    step : dotted (field 3 (c ∷ s)) ≡ b'.' ∷ until_space (field 3 (c ∷ s))
    step = unfold field in rw (ne→== (to_upper c) b' ' (to_upper-plain c h.0 h.1).1)

split_last_dot-plain : (s : CString) → IsPlain s → split_last_dot s ≡ none
unfolding split_last_dot
split_last_dot-plain [] h = refl
split_last_dot-plain (c ∷ s) h = ground (arith, split_last_dot-plain s h.4)

-- With a dot behind the text and none after it, the text splits there.
split_last_dot-append : (s t : CString) → IsPlain t → split_last_dot (s ++ b'.' ∷ t) ≡ some (s, t)
unfolding split_last_dot
split_last_dot-append [] t h = ground (arith, split_last_dot-plain t h)
split_last_dot-append (c ∷ s) t h = ground (arith, split_last_dot-append s t h)

c_string-upper_append :
    (s t : CString) → IsPlain s → c_string (map to_upper s ++ t) ≡ map to_upper s ++ c_string t
unfolding c_string
c_string-upper_append [] t h = refl
c_string-upper_append (c ∷ s) t h =
    ground (arith, (to_upper-plain c h.0 h.1).0, c_string-upper_append s t h.4)

c_string-upper : (s : CString) → IsPlain s → c_string (map to_upper s) ≡ map to_upper s
unfolding c_string
c_string-upper [] h = refl
c_string-upper (c ∷ s) h = ground (arith, (to_upper-plain c h.0 h.1).0, c_string-upper s h.4)

abbrev pub short_name_of : CString → CString
short_name_of s = short_name_to_string (string_to_short_name s).0 (string_to_short_name s).1

-- A name of 1 to 8 plain characters, without an extension, comes back in capitals from the 11 bytes
-- that are stored for it.
pub short_name_of-plain :
    (s : CString) → IsPlain s → length s ≤ 8 → short_name_of s ≡ map to_upper s
short_name_of-plain s h small =
    ap (λ (r : List ℕ × List ℕ). short_name_to_string r.0 r.1) parts
    ∙ (unfold short_name_to_string in rw (until_space-field 8 s h small) no_extension)
  where
    no_extension : c_string (map to_upper s ++ dotted (field 3 [])) ≡ map to_upper s
    no_extension =
        let none_left : dotted (field 3 []) ≡ [] = unfold dotted field in refl in
        ap (λ t. c_string (map to_upper s ++ t)) none_left
        ∙ ap c_string (append-nil (map to_upper s))
        ∙ c_string-upper s h

    parts : string_to_short_name s ≡ (field 8 s, field 3 [])
    parts = unfold string_to_short_name in rw (split_last_dot-plain s h, string_to_short_name)

-- A name of up to 8 plain characters with a dot and an extension of 1 to 3 plain characters comes
-- back in capitals from the 11 bytes that are stored for it.
pub short_name_of-dotted :
    (s : CString) (c : ℕ) (t : CString)
    → IsPlain s
    → length s ≤ 8
    → IsPlain (c ∷ t)
    → length (c ∷ t) ≤ 3
    → short_name_of (s ++ b'.' ∷ c ∷ t) ≡ map to_upper (s ++ b'.' ∷ c ∷ t)
unfolding short_name_to_string c_string to_upper
short_name_of-dotted s c t hs small ht short =
    ap (λ (r : List ℕ × List ℕ). short_name_to_string r.0 r.1) parts
    ∙ ap₂ (λ n e. c_string (n ++ e)) (until_space-field 8 s hs small)
        (dotted-field_cons c t ht short)
    ∙ c_string-upper_append s (b'.' ∷ map to_upper (c ∷ t)) hs
    ∙ ap (λ u. map to_upper s ++ b'.' ∷ u) (c_string-upper (c ∷ t) ht)
    ∙ sym (map-append to_upper s (b'.' ∷ c ∷ t))
  where
    parts : string_to_short_name (s ++ b'.' ∷ c ∷ t) ≡ (field 8 s, field 3 (c ∷ t))
    parts =
        unfold string_to_short_name in rw (split_last_dot-append s (c ∷ t) ht, string_to_short_name)
