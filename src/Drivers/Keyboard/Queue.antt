-- ===== src/Drivers/Keyboard/Queue.antt =====
-- The keyboard buffer is a queue of at most 127 characters.
use hazle_os.Prelude.{
  ℕ, zero, suc, ◌+◌, ◌-◌, ◌%◌, ◌≤◌, ◌<◌, ◌≡◌, refl, ◌⊎◌, inl, inr, true, false, List, [], ◌∷◌, ◌++◌,
  none, some, ltb, leb, ◌==◌, if◌then◌else◌, length, update, arith, ap, ap₂, ◌∙◌, Bool-cases, Bool,
  ◌||◌, sym,
}
use mathlib.Core.List.{append-nil}
use hazle_os.Drivers.Keyboard.{Keyboard, handler, push, ascii, getchar, has_input}

-- The `n` characters from index `i` on, around the end of the array.
abbrev pub ring : (ℕ → ℕ) → (i n : ℕ) → List ℕ
ring b i zero = []
ring b i (suc n) = b i ∷ ring b ((i + 1) % 128) n

-- How many characters wait.
abbrev pub waiting : Keyboard → ℕ
waiting k = (k.buffer_end + 128 - k.buffer_start) % 128

abbrev pub queue : Keyboard → List ℕ
queue k = ring k.keyboard_buffer k.buffer_start (waiting k)

pub record IsKeyboard (k : Keyboard) : Type 0 where
  pub start_inside : k.buffer_start < 128
  pub end_inside : k.buffer_end < 128

ring_snoc :
    (b : ℕ → ℕ) (i n : ℕ) → i < 128 → ring b i (suc n) ≡ ring b i n ++ b ((i + n) % 128) ∷ []
ring_snoc b i zero h = ap (λ m. b m ∷ []) (omega arith)
ring_snoc b i (suc n) h =
    ap (λ l. b i ∷ l) (ring_snoc b ((i + 1) % 128) n (omega arith))
    ∙ ap (λ m. b i ∷ (ring b ((i + 1) % 128) n ++ b m ∷ [])) (omega arith)

-- A cell behind the last is not among them.
ring-update :
    (b : ℕ → ℕ) (i n e c : ℕ)
    → i < 128
    → e < 128
    → n ≤ (e + 128 - i) % 128
    → ring (update b e c) i n ≡ ring b i n
ring-update b i zero e c hi he h = refl
ring-update b i (suc n) e c hi he h =
    ap₂ (λ x l. x ∷ l) (ground arith)
      (ring-update b ((i + 1) % 128) n e c (omega arith) he (omega arith))

-- What a key adds to the queue.
abbrev pub typed : (scancode : ℕ) → Keyboard → List ℕ
typed scancode k =
    if leb 0x80 scancode || ((scancode == 0x2A) || (scancode == 0x36))
    then []
    else if ascii k.shift_pressed scancode == 0
    then []
    else ascii k.shift_pressed scancode ∷ []

pub length-ring : (b : ℕ → ℕ) (i n : ℕ) → length (ring b i n) ≡ n
length-ring b i zero = refl
length-ring b i (suc n) = ap suc (length-ring b ((i + 1) % 128) n)

push-queue :
    (c : ℕ) (k : Keyboard)
    → IsKeyboard k
    → IsKeyboard (push c k)
      × (queue (push c k) ≡ (if ltb (waiting k) 127 then queue k ++ c ∷ [] else queue k))
unfolding push
push-queue c k h = elim (Bool-cases ((k.buffer_end + 1) % 128 == k.buffer_start)) [
  | inl full ↦ rw full (h, ground (arith, h.start_inside, h.end_inside))
  | inr room ↦
      let more : ((k.buffer_end + 1) % 128 + 128 - k.buffer_start) % 128 ≡ suc (waiting k) =
        ground (arith, h.start_inside, h.end_inside) in
      let below : ltb (waiting k) 127 ≡ true = ground (arith, h.start_inside, h.end_inside) in
      let last : (k.buffer_start + waiting k) % 128 ≡ k.buffer_end =
        omega (arith, h.start_inside, h.end_inside) in
      rw (room, below)
        (
          record { start_inside = h.start_inside; end_inside = omega arith },
          ap (λ n. ring (update k.keyboard_buffer k.buffer_end c) k.buffer_start n) more
              ∙ ring_snoc (update k.keyboard_buffer k.buffer_end c) k.buffer_start (waiting k)
                  h.start_inside
              ∙ ap₂ (λ l x. l ++ x ∷ [])
                  (ring-update k.keyboard_buffer k.buffer_start (waiting k) k.buffer_end c
                    h.start_inside h.end_inside (omega arith))
                  (rw last (ground arith)),
        )
]

kept : (k : Keyboard) → queue k ≡ (if ltb (waiting k) 127 then queue k ++ [] else queue k)
kept k = elim (Bool-cases (ltb (waiting k) 127)) [
  | inl room ↦ rw room (sym (append-nil (queue k)))
  | inr full ↦ rw full refl
]

-- `keyboard_handler` appends the character of a pressed key to the queue if fewer than 127 wait, and
-- else loses it; every other scan code leaves the queue.
pub handler-queue :
    (scancode : ℕ) (k : Keyboard)
    → IsKeyboard k
    → IsKeyboard (handler scancode k)
      × (queue (handler scancode k)
          ≡ (if ltb (waiting k) 127 then queue k ++ typed scancode k else queue k))
unfolding handler
handler-queue scancode k h = elim (Bool-cases ((scancode == 0x2A) || (scancode == 0x36))) [
  | inl shift ↦
      let down : leb 0x80 scancode ≡ false = ground arith in rw (shift, down) (same_state, kept k)
  | inr other ↦ elim (Bool-cases (leb 0x80 scancode)) [
    | inl up ↦
        rw (other, up)
          (elim (Bool-cases ((scancode == 0xAA) || (scancode == 0xB6))) [
            | inl release ↦ rw release (same_state, kept k)
            | inr dead ↦ rw dead (h, kept k)
          ])
    | inr down ↦
        let low : ((scancode == 0xAA) || (scancode == 0xB6)) ≡ false = ground arith in
        elim (Bool-cases (ascii k.shift_pressed scancode == 0)) [
          | inl silent ↦ rw (other, low, down, silent) (h, kept k)
          | inr sounds ↦
              rw (other, low, down, sounds) (push-queue (ascii k.shift_pressed scancode) k h)
        ]
  ]
]
  where
    same_state : {b : Bool} → IsKeyboard (record k { shift_pressed = b })
    same_state = record { start_inside = h.start_inside; end_inside = h.end_inside }

-- `keyboard_getchar` takes the first character of the queue, and waits exactly if there is none.
pub getchar-queue :
    (k : Keyboard)
    → IsKeyboard k
    → ((queue k ≡ []) × (getchar k ≡ none))
      ⊎ ((c : ℕ) × (l : Keyboard) × (getchar k ≡ some (c, l))
          × (queue k ≡ c ∷ queue l)
          × IsKeyboard l)
unfolding getchar has_input
getchar-queue k h = elim (Bool-cases (k.buffer_start == k.buffer_end)) [
  | inl same ↦
      let none_waits : waiting k ≡ 0 = ground (arith, h.start_inside, h.end_inside) in
      inl (ap (λ n. ring k.keyboard_buffer k.buffer_start n) none_waits, rw same)
  | inr apart ↦
      let l : Keyboard = record k { buffer_start = (k.buffer_start + 1) % 128 } in
      let more : waiting k ≡ suc (waiting l) = ground (arith, h.start_inside, h.end_inside) in
      inr (
        k.keyboard_buffer k.buffer_start,
        l,
        rw apart,
        ap (λ n. ring k.keyboard_buffer k.buffer_start n) more,
        record { start_inside = omega arith; end_inside = h.end_inside },
      )
]
