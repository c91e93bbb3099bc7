-- ===== src/Drivers/Keyboard/Runs.antt =====
-- Interrupts and reads in any order, against a machine that keeps a plain list.
use hazle_os.Prelude.{
  ℕ, ◌≡◌, refl, inl, inr, Bool, true, false, ◌||◌, List, [], ◌∷◌, ◌++◌, none, some, ltb, leb, ◌==◌,
  if◌then◌else◌, length, arith, ap, ap₂, ◌∙◌, sym,
}
use hazle_os.Drivers.Keyboard.{Keyboard, handler, push, ascii, getchar}
use hazle_os.Drivers.Keyboard.Queue.{
  IsKeyboard, queue, waiting, typed, length-ring, handler-queue, getchar-queue,
}

pub data Event : Type 0 where
  key : ℕ → Event
  take : Event

-- The characters that the reads return.
unfoldable pub run : List Event → Keyboard → List ℕ
run [] k = []
run (key scancode ∷ events) k = run events (handler scancode k)
run (take ∷ events) k = elim (getchar k) [ none ↦ run events k | some (c, l) ↦ c ∷ run events l ]

-- The keyboard that is specified: the shift key, and the list of characters that wait.
abbrev pub shift_after : (scancode : ℕ) → Bool → Bool
shift_after scancode shift =
    if (scancode == 0x2A) || (scancode == 0x36)
    then true
    else if (scancode == 0xAA) || (scancode == 0xB6)
    then false
    else shift

abbrev pub char_of : (scancode : ℕ) → Bool → List ℕ
char_of scancode shift =
    if leb 0x80 scancode || ((scancode == 0x2A) || (scancode == 0x36))
    then []
    else if ascii shift scancode == 0
    then []
    else ascii shift scancode ∷ []

unfoldable pub specified : List Event → Bool → List ℕ → List ℕ
specified [] shift q = []
specified (key scancode ∷ events) shift q =
    specified events (shift_after scancode shift)
      (if ltb (length q) 127 then q ++ char_of scancode shift else q)
specified (take ∷ events) shift [] = specified events shift []
specified (take ∷ events) shift (c ∷ q) = c ∷ specified events shift q

handler-shift :
    (scancode : ℕ) (k : Keyboard)
    → (handler scancode k).shift_pressed ≡ shift_after scancode k.shift_pressed
unfolding handler push
handler-shift scancode k = ground arith

take_shift :
    (k : Keyboard) (c : ℕ) (l : Keyboard)
    → getchar k ≡ some (c, l)
    → l.shift_pressed ≡ k.shift_pressed
unfolding getchar
take_shift k c l e = ground arith

-- In every order of scan codes and reads, the characters that `keyboard_getchar` returns are those
-- that a plain queue with room for 127 gives: none is lost before that, and their order is kept.
pub run-specified :
    (events : List Event) (k : Keyboard)
    → IsKeyboard k
    → run events k ≡ specified events k.shift_pressed (queue k)
unfolding run specified
run-specified [] k h = refl
run-specified (key scancode ∷ events) k h =
    let (h', q) = handler-queue scancode k h in
    run-specified events (handler scancode k) h'
    ∙ ap₂ (specified events) (handler-shift scancode k) (
        q
        ∙ ap (λ n. if ltb n 127 then queue k ++ typed scancode k else queue k)
            (sym (length-ring k.keyboard_buffer k.buffer_start (waiting k))))
run-specified (take ∷ events) k h = elim (getchar-queue k h) [
  | inl (empty, waits) ↦
      rw (waits, run)
        (run-specified events k h
          ∙ ap (specified events k.shift_pressed) empty
          ∙ sym (ap (specified (take ∷ events) k.shift_pressed) empty))
  | inr (c, l, got, q, h') ↦
      rw (got, run)
        (ap (λ t. c ∷ t) (run-specified events l h')
          ∙ ap (λ b. c ∷ specified events b (queue l)) (take_shift k c l got)
          ∙ sym (ap (specified (take ∷ events) k.shift_pressed) q))
]
