-- ===== src/Drivers/Keyboard/Tests.antt =====
-- The keyboard at concrete scan codes.
use hazle_os.Prelude.{ℕ, ◌≡◌, ◌⊎◌, false, List, [], ◌∷◌, none, some, arith}
use hazle_os.Drivers.Keyboard.{Keyboard, ascii, getchar}
use hazle_os.Drivers.Keyboard.Queue.{IsKeyboard, queue, getchar-queue}
use hazle_os.Drivers.Keyboard.Runs.{Event, key, take, run, specified, run-specified}

abbrev empty : Keyboard
empty = record {
  keyboard_buffer = λ i. b'x';
  buffer_start = 127;
  buffer_end = 127;
  shift_pressed = false;
}

empty-IsKeyboard : IsKeyboard empty
empty-IsKeyboard = record { start_inside = omega arith; end_inside = omega arith }

-- Shift, `q` and `w` are typed, and two characters read, over the end of the array.
abbrev session : List Event
session = key 0x2A ∷ key 16 ∷ key 17 ∷ take ∷ key 0xAA ∷ take ∷ take ∷ []

session_runs : run session empty ≡ b'Q' ∷ b'W' ∷ []
unfolding specified ascii
session_runs = run-specified session empty empty-IsKeyboard

run-specified_example : run session empty ≡ specified session false []
run-specified_example = run-specified session empty empty-IsKeyboard

getchar-queue_example :
    ((queue empty ≡ []) × (getchar empty ≡ none))
    ⊎ ((c : ℕ) × (l : Keyboard) × (getchar empty ≡ some (c, l))
        × (queue empty ≡ c ∷ queue l)
        × IsKeyboard l)
getchar-queue_example = getchar-queue empty empty-IsKeyboard
