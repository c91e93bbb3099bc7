-- ===== src/Drivers/Vga.antt =====
-- drivers/vga.c: the text screen and its cursor. The ports get the cursor's position after each
-- change, which is not modelled.
pub mod Cursor
pub mod Tests
use hazle_os.Prelude.{
  ℕ, zero, suc, ◌+◌, ◌-◌, ◌*◌, ◌/◌, ◌%◌, Bool, true, false, ◌&&◌, List, [], ◌∷◌, leb, ltb, ◌==◌,
  if◌then◌else◌, update, u8,
}

-- The static variables of vga.c.
pub record Screen : Type 0 where
  pub vga_buffer : ℕ → ℕ
  pub current_color : ℕ
  pub cursor_x : ℕ
  pub cursor_y : ℕ
  pub vga_width : ℕ
  pub vga_height : ℕ

pub data Mode : Type 0 where
  mode_80x25 mode_80x50 mode_40x25 : Mode

-- A character with the current colours: `c | (current_color << 8)`. A `char` is signed, so that the
-- sign bit of a character from 128 on fills the bits of the colours.
abbrev pub cell : ℕ → ℕ → ℕ
cell color c = if ltb c 128 then c + color * 256 else 0xFF00 + c

abbrev pub blank_cell : ℕ → ℕ
blank_cell color = cell color b' '

pub init : Screen → Screen
init s = record s { current_color = 7; cursor_x = 0; cursor_y = 0; vga_width = 80; vga_height = 25 }

pub clear : Screen → Screen
clear s = record s {
  vga_buffer = λ i.
      if ltb i (s.vga_width * s.vga_height) then blank_cell s.current_color else s.vga_buffer i;
  cursor_x = 0;
  cursor_y = 0;
}

pub set_mode : Mode → Screen → Screen
unfolding clear
set_mode mode_80x25 s = clear (record s { vga_width = 80; vga_height = 25 })
set_mode mode_80x50 s = clear (record s { vga_width = 80; vga_height = 50 })
set_mode mode_40x25 s = clear (record s { vga_width = 40; vga_height = 25 })

-- The first loop of `vga_scroll` at cell `i`, with `n` cells left.
pub move_up : (width n i : ℕ) → (ℕ → ℕ) → ℕ → ℕ
move_up width zero i b = b
move_up width (suc n) i b = move_up width n (i + 1) (update b i (b (i + width)))

-- The second loop.
pub fill : (value n i : ℕ) → (ℕ → ℕ) → ℕ → ℕ
fill value zero i b = b
fill value (suc n) i b = fill value n (i + 1) (update b i value)

pub scroll : Screen → Screen
unfolding move_up fill
scroll s =
    let moved = move_up s.vga_width ((s.vga_height - 1) * s.vga_width) 0 s.vga_buffer in
    record s {
      vga_buffer =
          fill (blank_cell s.current_color) s.vga_width ((s.vga_height - 1) * s.vga_width) moved;
    }

-- The effect of one character before the line wraps.
pub print_char : ℕ → Screen → Screen
print_char c s =
    if c == 10
    then record s { cursor_x = 0; cursor_y = u8 (s.cursor_y + 1) }
    else if c == 13
    then record s { cursor_x = 0 }
    else if c == 9
    then record s { cursor_x = u8 ((s.cursor_x + 4) / 4 * 4) }
    else if c == 8
    then (if ltb 0 s.cursor_x
        then record s {
          cursor_x = s.cursor_x - 1;
          vga_buffer =
              update s.vga_buffer (s.cursor_y * s.vga_width + (s.cursor_x - 1))
                (blank_cell s.current_color);
        }
        else s)
    else record s {
      cursor_x = u8 (s.cursor_x + 1);
      vga_buffer =
          update s.vga_buffer (s.cursor_y * s.vga_width + s.cursor_x) (cell s.current_color c);
    }

-- `if (cursor_x >= vga_width)`
pub wrap_line : Screen → Screen
wrap_line s =
    if leb s.vga_width s.cursor_x
    then record s { cursor_x = 0; cursor_y = u8 (s.cursor_y + 1) }
    else s

-- `if (cursor_y >= vga_height)`
pub wrap_screen : Screen → Screen
unfolding scroll
wrap_screen s =
    if leb s.vga_height s.cursor_y then record (scroll s) { cursor_y = s.vga_height - 1 } else s

pub putchar : ℕ → Screen → Screen
unfolding print_char wrap_line wrap_screen
putchar c s = wrap_screen (wrap_line (print_char c s))

pub write : List ℕ → Screen → Screen
unfolding putchar
write [] s = s
write (c ∷ text) s = write text (putchar c s)

pub writeln : List ℕ → Screen → Screen
unfolding write
writeln text s = putchar 10 (write text s)

pub set_color : (fg bg : ℕ) → Screen → Screen
set_color fg bg s = record s { current_color = u8 (bg * 16 + fg) }
