-- ===== src/Kernel/Sysconf/Lines.antt =====
-- The text of the configuration file against its lines.
use hazle_os.Prelude.{
  lt→ltb, ℕ, zero, suc, ◌+◌, ◌≡◌, refl, ap, sym, ◌∙◌, true, false, List, [], ◌∷◌, ◌++◌, arith, take,
  length, ltb, ◌==◌, ◌||◌, Bool-cases, inl, inr, if◌then◌else◌, Buffer,
}
use hazle_os.Libc.{CString, strchr}
use hazle_os.Libc.Tokens.{split, nonempty, cons_head}
use hazle_os.Kernel.Sysconf.{Sysconf, parse_line, until_zero, feed, feed_buffer, feed_end}

-- The ends of lines, `\n` and `\r`.
abbrev pub line_ends : CString
line_ends = 10 ∷ 13 ∷ []

-- The lines one after the other, each cut at 127 characters and at a zero byte.
pub parse_lines : List CString → Sysconf → Sysconf
parse_lines [] conf = conf
parse_lines (line ∷ lines) conf = parse_lines lines (parse_line (until_zero (take 127 line)) conf)

pub feed_text : CString → List ℕ × Sysconf → List ℕ × Sysconf
feed_text [] s = s
feed_text (c ∷ text) s = feed_text text (feed c s)

-- The fields of a text, behind the characters that came before.
abbrev behind : CString → List CString → List CString
behind full [] = full ∷ []
behind full (f ∷ fs) = (full ++ f) ∷ fs

append_nil : (s : CString) → s ++ [] ≡ s
append_nil [] = refl
append_nil (c ∷ s) = ap (λ t. c ∷ t) (append_nil s)

append_one : (s : CString) (c : ℕ) (t : CString) → s ++ c ∷ t ≡ (s ++ c ∷ []) ++ t
append_one [] c t = refl
append_one (d ∷ s) c t = ap (λ u. d ∷ u) (append_one s c t)

behind-cons_head :
    (full : CString) (c : ℕ) (fs : List CString)
    → behind full (cons_head c fs) ≡ behind (full ++ c ∷ []) fs
behind-cons_head full c [] = refl
behind-cons_head full c (f ∷ fs) = ap (λ u. u ∷ fs) (append_one full c f)

behind_nothing : (s : CString) → behind [] (split line_ends s) ≡ split line_ends s
unfolding split
behind_nothing [] = refl
behind_nothing (c ∷ s) = ground arith

take_nil : (n : ℕ) → take {A = ℕ} n [] ≡ []
take_nil zero = refl
take_nil (suc n) = refl

-- One character more, or the line is full.
take-append_one :
    (n : ℕ) (full : CString) (c : ℕ)
    → take n (full ++ c ∷ [])
      ≡ (if ltb (length (take n full)) n then take n full ++ c ∷ [] else take n full)
take-append_one zero full c = ground arith
take-append_one (suc n) [] c = rw (lt→ltb 0 (suc n) (omega arith)) (ap (λ u. c ∷ u) (take_nil n))
take-append_one (suc n) (d ∷ full) c = elim (Bool-cases (ltb (length (take n full)) n)) [
  | inl room ↦
      let more : ltb (length (take (suc n) (d ∷ full))) (suc n) ≡ true = ground arith in
      rw more (ap (λ u. d ∷ u) (take-append_one n full c ∙ rw room refl))
  | inr none_left ↦
      let more : ltb (length (take (suc n) (d ∷ full))) (suc n) ≡ false = ground arith in
      rw more (ap (λ u. d ∷ u) (take-append_one n full c ∙ rw none_left refl))
]

abbrev closed : CString → Sysconf → Sysconf
closed line conf = if ltb 0 (length line) then parse_line (until_zero line) conf else conf

-- A line that is closed is one of the lines, unless it is empty.
parse_lines-nonempty :
    (full : CString) (fs : List CString) (conf : Sysconf)
    → parse_lines (nonempty (full ∷ fs)) conf
      ≡ parse_lines (nonempty fs) (closed (take 127 full) conf)
unfolding parse_lines
parse_lines-nonempty [] fs conf = refl
parse_lines-nonempty (c ∷ full) fs conf =
    let some_left : ltb 0 (length (take 127 (c ∷ full))) ≡ true = ground arith in rw some_left refl

is_line_end : (c : ℕ) → strchr line_ends c ≡ ((c == 10) || (c == 13))
unfolding strchr
is_line_end c = ground arith

feed-end :
    (c : ℕ) (line : CString) (conf : Sysconf)
    → ((c == 10) || (c == 13)) ≡ true
    → feed c (line, conf) ≡ ([], closed line conf)
unfolding feed
feed-end c line conf ending = rw ending refl

feed-inside :
    (c : ℕ) (full : CString) (conf : Sysconf)
    → ((c == 10) || (c == 13)) ≡ false
    → feed c (take 127 full, conf) ≡ (take 127 (full ++ c ∷ []), conf)
unfolding feed
feed-inside c full conf inside = rw inside (elim (Bool-cases (ltb (length (take 127 full)) 127)) [
  | inl room ↦ rw (room, take-append_one 127 full c, room) refl
  | inr none_left ↦ rw (none_left, take-append_one 127 full c, none_left) refl
])

split-end :
    (c : ℕ) (text : CString)
    → ((c == 10) || (c == 13)) ≡ true
    → split line_ends (c ∷ text) ≡ [] ∷ split line_ends text
unfolding split
split-end c text ending = let delim = is_line_end c ∙ ending in rw delim refl

split-inside :
    (c : ℕ) (text : CString)
    → ((c == 10) || (c == 13)) ≡ false
    → split line_ends (c ∷ text) ≡ cons_head c (split line_ends text)
unfolding split
split-inside c text inside = let delim = is_line_end c ∙ inside in rw delim refl

-- Along the text, with `full` the characters of the line so far, also those that are cut.
feed_text-split :
    (text full : CString) (conf : Sysconf)
    → feed_end (feed_text text (take 127 full, conf))
      ≡ parse_lines (nonempty (behind full (split line_ends text))) conf
unfolding feed_text
feed_text-split [] full conf = sym (
    unfold split in
    ap (λ u. parse_lines (nonempty (u ∷ [])) conf) (append_nil full)
    ∙ parse_lines-nonempty full [] conf
    ∙ unfold parse_lines feed_end in refl)
feed_text-split (c ∷ text) full conf = elim (Bool-cases ((c == 10) || (c == 13))) [
  | inl ending ↦
      let conf' = closed (take 127 full) conf in
      ap (λ u. feed_end (feed_text text u)) (feed-end c (take 127 full) conf ending)
      ∙ feed_text-split text [] conf'
      ∙ ap (λ u. parse_lines (nonempty u) conf') (behind_nothing text)
      ∙ sym (parse_lines-nonempty full (split line_ends text) conf)
      ∙ ap (λ u. parse_lines (nonempty (u ∷ split line_ends text)) conf) (sym (append_nil full))
      ∙ ap (λ u. parse_lines (nonempty (behind full u)) conf) (sym (split-end c text ending))
  | inr inside ↦
      ap (λ u. feed_end (feed_text text u)) (feed-inside c full conf inside)
      ∙ feed_text-split text (full ++ c ∷ []) conf
      ∙ ap (λ u. parse_lines (nonempty u) conf)
          (sym (behind-cons_head full c (split line_ends text)))
      ∙ ap (λ u. parse_lines (nonempty (behind full u)) conf) (sym (split-inside c text inside))
]

-- The bytes that a buffer hands over, as a text.
abbrev pub text_of : (n i : ℕ) → Buffer → CString
text_of zero i buffer = []
text_of (suc n) i buffer = buffer i ∷ text_of n (i + 1) buffer

feed_buffer-text :
    (n i : ℕ) (buffer : Buffer) (s : List ℕ × Sysconf)
    → feed_buffer n i buffer s ≡ feed_text (text_of n i buffer) s
unfolding feed_buffer feed_text
feed_buffer-text zero i buffer s = refl
feed_buffer-text (suc n) i buffer s = feed_buffer-text n (i + 1) buffer (feed (buffer i) s)

feed_text-append :
    (t u : CString) (s : List ℕ × Sysconf) → feed_text (t ++ u) s ≡ feed_text u (feed_text t s)
unfolding feed_text
feed_text-append [] u s = refl
feed_text-append (c ∷ t) u s = feed_text-append t u (feed c s)

-- The buffers that the calls of `fat32_read` fill, by their lengths, and the text that they hold.
abbrev pub feed_buffers : List (ℕ × Buffer) → List ℕ × Sysconf → List ℕ × Sysconf
feed_buffers [] s = s
feed_buffers ((n, buffer) ∷ rest) s = feed_buffers rest (feed_buffer n 0 buffer s)

abbrev pub text_of_all : List (ℕ × Buffer) → CString
text_of_all [] = []
text_of_all ((n, buffer) ∷ rest) = text_of n 0 buffer ++ text_of_all rest

feed_buffers-text :
    (buffers : List (ℕ × Buffer)) (s : List ℕ × Sysconf)
    → feed_buffers buffers s ≡ feed_text (text_of_all buffers) s
feed_buffers-text [] s = unfold feed_text in refl
feed_buffers-text ((n, buffer) ∷ rest) s =
    feed_buffers-text rest (feed_buffer n 0 buffer s)
    ∙ ap (λ u. feed_text (text_of_all rest) u) (feed_buffer-text n 0 buffer s)
    ∙ sym (feed_text-append (text_of n 0 buffer) (text_of_all rest) s)

-- However the text of the file is cut into buffers, reading it character by character does what
-- parsing its lines one after the other does: the lines are what stands between ends of lines,
-- empty ones are left out, and each is cut at 127 characters.
pub feed_buffers-lines :
    (buffers : List (ℕ × Buffer)) (conf : Sysconf)
    → feed_end (feed_buffers buffers ([], conf))
      ≡ parse_lines (nonempty (split line_ends (text_of_all buffers))) conf
feed_buffers-lines buffers conf =
    ap feed_end (feed_buffers-text buffers ([], conf))
    ∙ feed_text-split (text_of_all buffers) [] conf
    ∙ ap (λ u. parse_lines (nonempty u) conf) (behind_nothing (text_of_all buffers))
