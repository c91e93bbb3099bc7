-- ===== src/Shell/Line/Editing.antt =====
-- The line in its array against the text that is typed.
use hazle_os.Prelude.{
  ℕ, zero, suc, ◌+◌, ◌-◌, ◌≤◌, ◌<◌, ◌≡◌, ◌≢◌, refl, ap, ap₂, ◌∙◌, inl, inr, true, false, List, [],
  ◌∷◌, ◌++◌, arith, ltb, ◌==◌, if◌then◌else◌, Bool-cases, Buffer, update, take, length, get_or, All,
  length-append,
}
use hazle_os.Libc.{CString, IsCString, string_in}
use hazle_os.Shell.Line.{Line, type_key, type_keys, command}

-- The text without its last character.
abbrev pub drop_last : CString → CString
drop_last t = take (length t - 1) t

-- A key typed behind a text: the backspace key removes the last character, and a text of 255
-- characters takes no more.
abbrev pub edit_key : ℕ → CString → CString
edit_key c t = if c == 8 then drop_last t else if ltb (length t) 255 then t ++ c ∷ [] else t

abbrev pub edit : List ℕ → CString → CString
edit [] t = t
edit (c ∷ keys) t = edit keys (edit_key c t)

-- The array holds the text and zero bytes behind it, with room for one at least.
pub record Holds (l : Line) (t : CString) : Type 0 where
  pub position : l.buffer_pos ≡ length t
  pub room : length t < 256
  pub bytes : (j : ℕ) → j < 256 → l.input_buffer j ≡ get_or t j 0
  pub chars : IsCString t

get_or-append_one :
    (t : CString) (c j : ℕ) → get_or (t ++ c ∷ []) j 0 ≡ (if j == length t then c else get_or t j 0)
get_or-append_one [] c zero = refl
get_or-append_one [] c (suc j) = ground arith
get_or-append_one (d ∷ t) c zero = ground arith
get_or-append_one (d ∷ t) c (suc j) = ground (arith, get_or-append_one t c j)

get_or-take :
    (n : ℕ) (t : CString) (j : ℕ) → get_or (take n t) j 0 ≡ (if ltb j n then get_or t j 0 else 0)
get_or-take zero t j = ground arith
get_or-take (suc n) [] j = ground arith
get_or-take (suc n) (c ∷ t) zero = ground arith
get_or-take (suc n) (c ∷ t) (suc j) = ground (arith, get_or-take n t j)

get_or_past : (t : CString) (j : ℕ) → length t ≤ j → get_or t j 0 ≡ 0
get_or_past [] j h = refl
get_or_past (c ∷ t) zero h = absurd (omega arith)
get_or_past (c ∷ t) (suc j) h = get_or_past t j (omega arith)

length-take : (n : ℕ) (t : CString) → n ≤ length t → length (take n t) ≡ n
length-take zero t h = refl
length-take (suc n) [] h = absurd (omega arith)
length-take (suc n) (c ∷ t) h = ap suc (length-take n t (omega arith))

take-IsCString : (n : ℕ) (t : CString) → IsCString t → IsCString (take n t)
take-IsCString zero t h = tt
take-IsCString (suc n) [] h = tt
take-IsCString (suc n) (c ∷ t) (nonzero, h) = (nonzero, take-IsCString n t h)

append-IsCString : (t : CString) (c : ℕ) → IsCString t → c ≢ 0 → IsCString (t ++ c ∷ [])
append-IsCString [] c h nonzero = (nonzero, tt)
append-IsCString (d ∷ t) c (first, h) nonzero = (first, append-IsCString t c h nonzero)

type_key-Holds :
    (c : ℕ) (l : Line) (t : CString) → c ≢ 0 → Holds l t → Holds (type_key c l) (edit_key c t)
unfolding type_key
type_key-Holds c l t nonzero h = elim (Bool-cases (c == 8)) [
  | inl back ↦ elim (Bool-cases (ltb 0 l.buffer_pos)) [
    | inl some_left ↦
        let pos = h.position in
        let shorter = length-take (length t - 1) t (omega arith) in
        rw (back, some_left)
          (record {
            position = omega (arith, pos, shorter);
            room = omega (arith, shorter, h.room);
            bytes = λ j inside.
                ground
                  (arith, pos, h.bytes j inside, get_or-take (length t - 1) t j, get_or_past t j);
            chars = take-IsCString (length t - 1) t h.chars;
          })
    | inr nothing ↦
        let pos = h.position in
        let none_left : length t - 1 ≡ length t = ground arith in
        rw (back, nothing, none_left) (rw (take_whole t) h)
  ]
  | inr other ↦ elim (Bool-cases (ltb l.buffer_pos 255)) [
    | inl some_room ↦
        let pos = h.position in
        let fits : ltb (length t) 255 ≡ true = ground arith in
        let longer = length-append t (c ∷ []) in
        rw (other, some_room, fits)
          (record {
            position = omega (arith, pos, longer);
            room = ground (arith, longer);
            bytes = λ j inside. ground (arith, pos, h.bytes j inside, get_or-append_one t c j);
            chars = append-IsCString t c h.chars nonzero;
          })
    | inr full ↦
        let pos = h.position in
        let no_room : ltb (length t) 255 ≡ false = ground arith in rw (other, full, no_room) h
  ]
]
  where
    take_whole : (t : CString) → take (length t) t ≡ t
    take_whole [] = refl
    take_whole (c ∷ t) = ap (λ u. c ∷ u) (take_whole t)

-- None of the keys is the zero character.
abbrev pub AreKeys : List ℕ → Type 0
AreKeys keys = All (λ c. c ≢ 0) keys

type_keys-Holds :
    (keys : List ℕ) (l : Line) (t : CString)
    → AreKeys keys
    → Holds l t
    → Holds (type_keys keys l) (edit keys t)
unfolding type_keys
type_keys-Holds [] l t nonzero h = h
type_keys-Holds (c ∷ keys) l t (first, nonzero) h =
    type_keys-Holds keys (type_key c l) (edit_key c t) nonzero (type_key-Holds c l t first h)

-- A string that the bytes of an array hold from `i` on is read back from it.
string_in-text :
    (n i : ℕ) (b : Buffer) (t : CString)
    → length t < n
    → IsCString t
    → ((j : ℕ) → j < n → b (i + j) ≡ get_or t j 0)
    → string_in n i b ≡ t
unfolding string_in
string_in-text zero i b t h chars bytes = absurd (omega arith)
string_in-text (suc n) i b [] h chars bytes =
    let first : b i ≡ 0 = ap b (omega arith) ∙ bytes 0 (omega arith) in
    let ended : (b i == 0) ≡ true = ground arith in rw (ended, string_in) refl
string_in-text (suc n) i b (c ∷ t) h (nonzero, chars) bytes =
    let first : b i ≡ c = ap b (omega arith) ∙ bytes 0 (omega arith) in
    let more : (b i == 0) ≡ false = ground (arith, nonzero) in
    rw (more, string_in)
      (ap₂ (λ d s. d ∷ s) first
        (string_in-text n (i + 1) b t (omega (arith, h)) chars
          (λ j inside. ap b (omega arith) ∙ bytes (suc j) (omega arith))))

command-text : (l : Line) (t : CString) → Holds l t → command l ≡ t
unfolding command
command-text l t h =
    string_in-text 256 0 (update l.input_buffer l.buffer_pos 0) t h.room h.chars
      (λ j inside. ground (arith, h.position, h.bytes j inside, get_or_past t j))

-- Whatever keys other than return are typed into an empty line, the array of 256 characters is not
-- left, and the command that return hands over is the text as an editor would have it: a backspace
-- takes off the last character, and at 255 characters nothing more is taken.
pub type_keys-edit :
    (keys : List ℕ) (l : Line)
    → AreKeys keys
    → Holds l []
    → (command (type_keys keys l) ≡ edit keys []) × ((type_keys keys l).buffer_pos < 256)
type_keys-edit keys l nonzero h =
    let held = type_keys-Holds keys l [] nonzero h in
    (command-text (type_keys keys l) (edit keys []) held, omega (arith, held.position, held.room))
