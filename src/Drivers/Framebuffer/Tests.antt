-- ===== src/Drivers/Framebuffer/Tests.antt =====
-- A screen of 32 by 32 pixels.
use hazle_os.Prelude.{ℕ, ◌+◌, ◌-◌, ◌≡◌, ◌&&◌, leb, ltb, ◌==◌, if◌then◌else◌, arith}
use hazle_os.Drivers.Framebuffer.{Color, Framebuffer, color_black, getpixel, draw_char}
use hazle_os.Drivers.Framebuffer.Pixels.{IsFramebuffer, IsColor}
use hazle_os.Drivers.Framebuffer.Glyphs.{ink, draw_char-glyph}

abbrev pub small_screen : Framebuffer
small_screen = record {
  pixels = λ i. 0;
  fb_width = 32;
  fb_height = 32;
  fb_pitch = 128;
  fb_bpp = 32;
}

small_screen-IsFramebuffer : IsFramebuffer small_screen
small_screen-IsFramebuffer = record { row_fits = omega arith }

abbrev orange : Color
orange = record { r = 255; g = 128; b = 0; a = 255 }

orange-IsColor : IsColor orange
orange-IsColor = record {
  r_byte = omega arith;
  g_byte = omega arith;
  b_byte = omega arith;
  a_byte = omega arith;
}

black-IsColor : IsColor color_black
black-IsColor = record {
  r_byte = omega arith;
  g_byte = omega arith;
  b_byte = omega arith;
  a_byte = omega arith;
}

-- A font of diagonal strokes.
abbrev diagonal : ℕ → ℕ → ℕ
diagonal c row = if row == 3 then 16 else 0

draw_char-glyph_example :
    getpixel 11 19 (draw_char diagonal 8 16 b'A' orange color_black small_screen) ≡ (
      if (leb 16 19 && ltb 19 (16 + 16)) && (leb 8 11 && ltb 11 (8 + 8))
      then ink orange color_black (diagonal b'A' (19 - 16)) (11 - 8)
      else getpixel 11 19 small_screen)
draw_char-glyph_example =
    draw_char-glyph orange color_black orange-IsColor black-IsColor diagonal 8 16 b'A' small_screen
      11 19 small_screen-IsFramebuffer (omega arith) (omega arith)
