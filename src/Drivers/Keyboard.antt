-- ===== src/Drivers/Keyboard.antt =====
-- drivers/keyboard.c: the scan codes, and the ring buffer between the interrupt handler and its
-- readers.
pub mod Queue
pub mod Runs
pub mod Tests
use hazle_os.Prelude.{
  ℕ, ◌+◌, ◌/◌, ◌%◌, Bool, true, false, ◌||◌, List, [], ◌∷◌, Option, none, some, leb, ltb, ◌==◌,
  if◌then◌else◌, length, get_or, update,
}

abbrev pub scancode_to_ascii : List ℕ
scancode_to_ascii =
    0 ∷ 0 ∷ b'1' ∷ b'2' ∷ b'3' ∷ b'4' ∷ b'5' ∷ b'6' ∷ b'7' ∷ b'8' ∷ b'9' ∷ b'0' ∷ b'-' ∷ b'=' ∷ 8
    ∷ 9 ∷ b'q' ∷ b'w' ∷ b'e' ∷ b'r' ∷ b't' ∷ b'y' ∷ b'u' ∷ b'i' ∷ b'o' ∷ b'p' ∷ b'[' ∷ b']' ∷ 10 ∷ 0
    ∷ b'a' ∷ b's' ∷ b'd' ∷ b'f' ∷ b'g' ∷ b'h' ∷ b'j' ∷ b'k' ∷ b'l' ∷ b';' ∷ 39 ∷ b'`' ∷ 0 ∷ 92
    ∷ b'z' ∷ b'x' ∷ b'c' ∷ b'v' ∷ b'b' ∷ b'n' ∷ b'm' ∷ b',' ∷ b'.' ∷ b'/' ∷ 0 ∷ b'*' ∷ 0 ∷ b' ' ∷ []

abbrev pub scancode_to_ascii_shift : List ℕ
scancode_to_ascii_shift =
    0 ∷ 0 ∷ b'!' ∷ b'@' ∷ b'#' ∷ b'$' ∷ b'%' ∷ b'^' ∷ b'&' ∷ b'*' ∷ b'(' ∷ b')' ∷ b'_' ∷ b'+' ∷ 8
    ∷ 9 ∷ b'Q' ∷ b'W' ∷ b'E' ∷ b'R' ∷ b'T' ∷ b'Y' ∷ b'U' ∷ b'I' ∷ b'O' ∷ b'P' ∷ b'{' ∷ b'}' ∷ 10 ∷ 0
    ∷ b'A' ∷ b'S' ∷ b'D' ∷ b'F' ∷ b'G' ∷ b'H' ∷ b'J' ∷ b'K' ∷ b'L' ∷ b':' ∷ 34 ∷ b'~' ∷ 0 ∷ b'|'
    ∷ b'Z' ∷ b'X' ∷ b'C' ∷ b'V' ∷ b'B' ∷ b'N' ∷ b'M' ∷ b'<' ∷ b'>' ∷ b'?' ∷ 0 ∷ b'*' ∷ 0 ∷ b' ' ∷ []

abbrev pub keyboard_buffer_size : ℕ
keyboard_buffer_size = 128

-- The static variables of keyboard.c.
pub record Keyboard : Type 0 where
  pub keyboard_buffer : ℕ → ℕ
  pub buffer_start : ℕ
  pub buffer_end : ℕ
  pub shift_pressed : Bool

pub init : Keyboard → Keyboard
init k = record k { buffer_start = 0; buffer_end = 0; shift_pressed = false }

-- The character of a key that goes down, or 0.
pub ascii : Bool → ℕ → ℕ
ascii shift scancode =
    if ltb scancode (length scancode_to_ascii)
    then (if shift
        then get_or scancode_to_ascii_shift scancode 0
        else get_or scancode_to_ascii scancode 0)
    else 0

-- The end of `keyboard_handler`: a character is dropped if the buffer is full.
pub push : ℕ → Keyboard → Keyboard
push c k =
    let next = (k.buffer_end + 1) % keyboard_buffer_size in
    if next == k.buffer_start
    then k
    else record k { keyboard_buffer = update k.keyboard_buffer k.buffer_end c; buffer_end = next }

pub handler : (scancode : ℕ) → Keyboard → Keyboard
unfolding ascii push
handler scancode k =
    if (scancode == 0x2A) || (scancode == 0x36)
    then record k { shift_pressed = true }
    else if (scancode == 0xAA) || (scancode == 0xB6)
    then record k { shift_pressed = false }
    else if leb 0x80 scancode
    then k
    else if ascii k.shift_pressed scancode == 0
    then k
    else push (ascii k.shift_pressed scancode) k

pub has_input : Keyboard → Bool
has_input k = if k.buffer_start == k.buffer_end then false else true

-- `none` is the wait for an interrupt: the call has not returned.
pub getchar : Keyboard → Option (ℕ × Keyboard)
unfolding has_input
getchar k =
    if has_input k
    then some (
      k.keyboard_buffer k.buffer_start,
      record k { buffer_start = (k.buffer_start + 1) % keyboard_buffer_size },
    )
    else none
