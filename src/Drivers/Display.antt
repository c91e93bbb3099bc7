-- ===== src/Drivers/Display.antt =====
-- drivers/display.c: text on the framebuffer. `font` stands for the glyphs of font_8x16.c.
pub mod Cursor
pub mod Tests
use hazle_os.Prelude.{
  ℕ, zero, suc, ◌+◌, ◌-◌, ◌*◌, ◌/◌, ◌%◌, ◌^◌, Bool, true, false, List, [], ◌∷◌, leb, ltb, ◌==◌,
  if◌then◌else◌, u16, get_or,
}
use hazle_os.Libc.{CString}
use hazle_os.Drivers.Framebuffer.{
  Color, Framebuffer, color_black, font_width, font_height, draw_char,
}
use hazle_os.Drivers.Framebuffer
use hazle_os.Drivers.Vesa.{Vesa}

abbrev rgb : (r g b : ℕ) → Color
rgb r g b = record { r = r; g = g; b = b; a = 255 }

abbrev pub color_light_grey : Color
color_light_grey = rgb 170 170 170

pub color_palette : List Color
color_palette =
    rgb 0 0 0
    ∷ rgb 0 0 170
    ∷ rgb 0 170 0
    ∷ rgb 0 170 170
    ∷ rgb 170 0 0
    ∷ rgb 170 0 170
    ∷ rgb 170 85 0
    ∷ rgb 170 170 170
    ∷ rgb 85 85 85
    ∷ rgb 85 85 255
    ∷ rgb 85 255 85
    ∷ rgb 85 255 255
    ∷ rgb 255 85 85
    ∷ rgb 255 85 255
    ∷ rgb 255 255 85
    ∷ rgb 255 255 255
    ∷ []

-- The static variables of display.c, with the framebuffer under them.
pub record Display : Type 0 where
  pub framebuffer : Framebuffer
  pub current_fg : Color
  pub current_bg : Color
  pub cursor_x : ℕ
  pub cursor_y : ℕ
  pub columns : ℕ
  pub rows : ℕ

pub init : Vesa → Display → Display
init v d = record d {
  columns = v.screen_width / font_width;
  rows = v.screen_height / font_height;
  cursor_x = 0;
  cursor_y = 0;
  current_fg = color_light_grey;
  current_bg = color_black;
}

pub clear : Display → Display
clear d = record d {
  framebuffer = Framebuffer.clear d.current_bg d.framebuffer;
  cursor_x = 0;
  cursor_y = 0;
}

pub scroll : Display → Display
scroll d = record d { framebuffer = Framebuffer.scroll font_height d.current_bg d.framebuffer }

pub set_color : (fg bg : ℕ) → Display → Display
unfolding color_palette
set_color fg bg d = record d {
  current_fg = if ltb fg 16 then get_or color_palette fg d.current_fg else d.current_fg;
  current_bg = if ltb bg 16 then get_or color_palette bg d.current_bg else d.current_bg;
}

-- `if (cursor_x >= columns)`
pub wrap_line : Display → Display
wrap_line d =
    if leb d.columns d.cursor_x
    then record d { cursor_x = 0; cursor_y = u16 (d.cursor_y + 1) }
    else d

-- `if (cursor_y >= rows)`; with no row at all the cursor would wrap.
pub wrap_screen : Display → Display
unfolding scroll
wrap_screen d =
    if leb d.rows d.cursor_y
    then record (scroll d) { cursor_y = u16 (d.rows + (2 ^ 16 - 1)) }
    else d

module _ (font : ℕ → ℕ → ℕ) where
  -- `fb_draw_char` in the cell of column `x` in the cursor's row.
  abbrev pub draw_cell : (x c : ℕ) → Display → Framebuffer
  draw_cell x c d =
      draw_char font (u16 (x * font_width)) (u16 (d.cursor_y * font_height)) c d.current_fg
        d.current_bg d.framebuffer

  -- The effect of one character before the line wraps.
  pub print_char : ℕ → Display → Display
  print_char c d =
      if c == 10
      then record d { cursor_x = 0; cursor_y = u16 (d.cursor_y + 1) }
      else if c == 13
      then record d { cursor_x = 0 }
      else if c == 9
      then record d { cursor_x = u16 ((d.cursor_x + 4) / 4 * 4) }
      else if c == 8
      then (if ltb 0 d.cursor_x
          then record d {
            cursor_x = d.cursor_x - 1;
            framebuffer = draw_cell (d.cursor_x - 1) b' ' d;
          }
          else d)
      else record d { framebuffer = draw_cell d.cursor_x c d; cursor_x = u16 (d.cursor_x + 1) }

  pub putchar : ℕ → Display → Display
  unfolding print_char wrap_line wrap_screen
  putchar c d = wrap_screen (wrap_line (print_char c d))

  pub write : CString → Display → Display
  unfolding putchar
  write [] d = d
  write (c ∷ str) d = write str (putchar c d)

  pub writeln : CString → Display → Display
  unfolding write
  writeln str d = putchar 10 (write str d)
