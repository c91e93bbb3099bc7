-- ===== src/Drivers/Framebuffer.antt =====
-- drivers/framebuffer.c: pixels of 32 bits in the memory of the screen. `fb_draw_line` computes
-- with floating-point numbers and is left out.
pub mod Pixels
pub mod Glyphs
pub mod Tests
use hazle_os.Prelude.{
  ℕ, zero, suc, ◌+◌, ◌-◌, ◌*◌, ◌/◌, ◌%◌, ◌^◌, Bool, true, false, ◌||◌, leb, ltb, ◌==◌,
  if◌then◌else◌, update, has_bit, u16, u32,
}

-- `color_t`
pub record Color : Type 0 where
  pub r : ℕ
  pub g : ℕ
  pub b : ℕ
  pub a : ℕ

abbrev pub color_black : Color
color_black = record { r = 0; g = 0; b = 0; a = 255 }

-- The static variables of framebuffer.c; `pixels` is what `fb_addr` points to.
pub record Framebuffer : Type 0 where
  pub pixels : ℕ → ℕ
  pub fb_width : ℕ
  pub fb_height : ℕ
  pub fb_pitch : ℕ
  pub fb_bpp : ℕ

abbrev pub font_width : ℕ
font_width = 8

abbrev pub font_height : ℕ
font_height = 16

pub init : (width height pitch bpp : ℕ) → Framebuffer → Framebuffer
init width height pitch bpp fb = record fb {
  fb_width = width;
  fb_height = height;
  fb_pitch = pitch;
  fb_bpp = bpp;
}

-- `(color.a << 24) | (color.r << 16) | (color.g << 8) | color.b`
abbrev pub pixel_of : Color → ℕ
pixel_of c = c.a * 2 ^ 24 + c.r * 2 ^ 16 + c.g * 2 ^ 8 + c.b

-- `y * (fb_pitch / 4) + x`
abbrev pub offset : Framebuffer → (x y : ℕ) → ℕ
offset fb x y = y * (fb.fb_pitch / 4) + x

-- `for (i = from; i < from + n; i++) fb_addr[i] = pixel;`
pub fill : (n from pixel : ℕ) → (ℕ → ℕ) → ℕ → ℕ
fill zero from pixel p = p
fill (suc n) from pixel p = fill n (from + 1) pixel (update p from pixel)

pub clear : Color → Framebuffer → Framebuffer
unfolding fill
clear c fb = record fb { pixels = fill (fb.fb_width * fb.fb_height) 0 (pixel_of c) fb.pixels }

pub putpixel : (x y : ℕ) → Color → Framebuffer → Framebuffer
putpixel x y c fb =
    if leb fb.fb_width x || leb fb.fb_height y
    then fb
    else record fb { pixels = update fb.pixels (offset fb x y) (pixel_of c) }

abbrev pub color_of : ℕ → Color
color_of pixel = record {
  b = pixel % 2 ^ 8;
  g = pixel / 2 ^ 8 % 2 ^ 8;
  r = pixel / 2 ^ 16 % 2 ^ 8;
  a = pixel / 2 ^ 24 % 2 ^ 8;
}

pub getpixel : (x y : ℕ) → Framebuffer → Color
getpixel x y fb =
    if leb fb.fb_width x || leb fb.fb_height y
    then color_black
    else color_of (fb.pixels (offset fb x y))

-- The two loops of `fb_draw_rect` at `i`, with `n` left.
pub draw_rows : (n i x y height : ℕ) → Color → Framebuffer → Framebuffer
unfolding putpixel
draw_rows zero i x y height c fb = fb
draw_rows (suc n) i x y height c fb =
    draw_rows n (i + 1) x y height c
      (putpixel (u16 (x + i)) (u16 (y + height + (2 ^ 16 - 1))) c (putpixel (u16 (x + i)) y c fb))

pub draw_columns : (n i x y width : ℕ) → Color → Framebuffer → Framebuffer
unfolding putpixel
draw_columns zero i x y width c fb = fb
draw_columns (suc n) i x y width c fb =
    draw_columns n (i + 1) x y width c
      (putpixel (u16 (x + width + (2 ^ 16 - 1))) (u16 (y + i)) c (putpixel x (u16 (y + i)) c fb))

pub draw_rect : (x y width height : ℕ) → Color → Framebuffer → Framebuffer
unfolding draw_rows draw_columns
draw_rect x y width height c fb =
    draw_columns height 0 x y width c (draw_rows width 0 x y height c fb)

-- The inner loop of `fb_fill_rect`: row `row` from `x + i` on, as far as it is on the screen.
pub fill_row : (n i x row pixel : ℕ) → Framebuffer → Framebuffer
fill_row zero i x row pixel fb = fb
fill_row (suc n) i x row pixel fb = elim (leb fb.fb_width (x + i)) [
  | true ↦ fb
  | false ↦
      fill_row n (i + 1) x row pixel
        (record fb { pixels = update fb.pixels (offset fb x row + i) pixel })
]

pub fill_rows : (n j x y width pixel : ℕ) → Framebuffer → Framebuffer
unfolding fill_row
fill_rows zero j x y width pixel fb = fb
fill_rows (suc n) j x y width pixel fb = elim (leb fb.fb_height (y + j)) [
  | true ↦ fb
  | false ↦ fill_rows n (j + 1) x y width pixel (fill_row width 0 x (y + j) pixel fb)
]

pub fill_rect : (x y width height : ℕ) → Color → Framebuffer → Framebuffer
unfolding fill_rows
fill_rect x y width height c fb = fill_rows height 0 x y width (pixel_of c) fb

-- One row of a glyph: bit 7 of `line` is its first pixel.
pub draw_glyph_row : (n col x y line : ℕ) (fg bg : Color) → Framebuffer → Framebuffer
unfolding putpixel
draw_glyph_row zero col x y line fg bg fb = fb
draw_glyph_row (suc n) col x y line fg bg fb =
    draw_glyph_row n (col + 1) x y line fg bg
      (putpixel (x + col) y (if has_bit line (7 - col) then fg else bg) fb)

pub draw_glyph : (n row x y : ℕ) (glyph : ℕ → ℕ) (fg bg : Color) → Framebuffer → Framebuffer
unfolding draw_glyph_row
draw_glyph zero row x y glyph fg bg fb = fb
draw_glyph (suc n) row x y glyph fg bg fb =
    draw_glyph n (row + 1) x y glyph fg bg
      (draw_glyph_row font_width 0 x (y + row) (glyph row) fg bg fb)

-- `fb_draw_char` with the font `font_8x16`.
pub draw_char : (font : ℕ → ℕ → ℕ) (x y c : ℕ) (fg bg : Color) → Framebuffer → Framebuffer
unfolding draw_glyph
draw_char font x y c fg bg fb =
    if ltb fb.fb_width (x + font_width) || ltb fb.fb_height (y + font_height)
    then fb
    else draw_glyph font_height 0 x y (font c) fg bg fb

-- `for (i = from; ...) fb_addr[i] = fb_addr[i + distance];`, with `n` left.
pub move : (n from distance : ℕ) → (ℕ → ℕ) → ℕ → ℕ
move zero from distance p = p
move (suc n) from distance p = move n (from + 1) distance (update p from (p (from + distance)))

-- `fb_scroll`, where `lines` is at most the height.
pub scroll : (lines : ℕ) → Color → Framebuffer → Framebuffer
unfolding move fill
scroll lines c fb =
    let pixels_per_row = fb.fb_pitch / 4 in
    let total = pixels_per_row * fb.fb_height in
    let moved = pixels_per_row * (fb.fb_height - lines) in
    record fb {
      pixels =
          fill (total - moved) moved (pixel_of c) (move moved 0 (pixels_per_row * lines) fb.pixels);
    }
