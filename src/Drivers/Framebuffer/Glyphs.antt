-- ===== src/Drivers/Framebuffer/Glyphs.antt =====
-- The glyph that `fb_draw_char` leaves on the screen.
use hazle_os.Prelude.{
  ℕ, zero, suc, ◌+◌, ◌-◌, ◌<◌, ◌≤◌, ◌≡◌, refl, ap, ◌∙◌, inl, inr, true, false, ◌&&◌, ◌||◌, arith,
  leb, ltb, ◌==◌, if◌then◌else◌, has_bit, Bool-cases,
}
use hazle_os.Drivers.Framebuffer.{
  Color, Framebuffer, putpixel, getpixel, draw_glyph_row, draw_glyph, draw_char,
}
use hazle_os.Drivers.Framebuffer.Pixels.{IsFramebuffer, IsColor, getpixel-putpixel}

putpixel-same :
    (x y : ℕ) (c : Color) (fb : Framebuffer)
    → IsFramebuffer fb
    → IsFramebuffer (putpixel x y c fb)
      × ((putpixel x y c fb).fb_width ≡ fb.fb_width)
      × ((putpixel x y c fb).fb_height ≡ fb.fb_height)
unfolding putpixel
putpixel-same x y c fb h = elim (Bool-cases (leb fb.fb_width x || leb fb.fb_height y)) [
  | inl off ↦ rw (off, putpixel) (h, refl, refl)
  | inr on ↦ rw (on, putpixel) (record { row_fits = h.row_fits }, refl, refl)
]

-- The colour of column `col` of a row of a glyph.
abbrev pub ink : (fg bg : Color) (line col : ℕ) → Color
ink fg bg line col = if has_bit line (7 - col) then fg else bg

module _ (fg bg : Color) (hfg : IsColor fg) (hbg : IsColor bg) where
  ink-IsColor : (line col : ℕ) → IsColor (ink fg bg line col)
  ink-IsColor line col = elim (Bool-cases (has_bit line (7 - col))) [
    | inl set ↦ rw set hfg
    | inr clear ↦ rw clear hbg
  ]

  -- The column drawn first, and the columns behind it.
  joined :
      (n col x y line x' y' : ℕ) (old : Color)
      → (if (y' == y) && (leb (x + (col + 1)) x' && ltb x' (x + (col + 1) + n))
          then ink fg bg line (x' - x)
          else if (x' == x + col) && (y' == y)
          then ink fg bg line col
          else old)
        ≡ (if (y' == y) && (leb (x + col) x' && ltb x' (x + col + suc n))
            then ink fg bg line (x' - x)
            else old)
  joined n col x y line x' y' old = elim (Bool-cases ((x' == x + col) && (y' == y))) [
    | inl here ↦
        let before : ((y' == y) && (leb (x + (col + 1)) x' && ltb x' (x + (col + 1) + n))) ≡ false =
          ground arith in
        let inside : ((y' == y) && (leb (x + col) x' && ltb x' (x + col + suc n))) ≡ true =
          ground arith in
        let column : x' - x ≡ col = ground arith in rw (here, before, inside, column) refl
    | inr there ↦
        let same : ((y' == y) && (leb (x + (col + 1)) x' && ltb x' (x + (col + 1) + n)))
            ≡ ((y' == y) && (leb (x + col) x' && ltb x' (x + col + suc n))) =
          ground arith in
        rw (there, same) refl
  ]

  draw_glyph_row-pixel :
      (n col x y line : ℕ) (fb : Framebuffer) (x' y' : ℕ)
      → IsFramebuffer fb
      → x + col + n ≤ fb.fb_width
      → y < fb.fb_height
      → (getpixel x' y' (draw_glyph_row n col x y line fg bg fb) ≡ (
          if (y' == y) && (leb (x + col) x' && ltb x' (x + col + n))
          then ink fg bg line (x' - x)
          else getpixel x' y' fb))
        × IsFramebuffer (draw_glyph_row n col x y line fg bg fb)
        × ((draw_glyph_row n col x y line fg bg fb).fb_width ≡ fb.fb_width)
        × ((draw_glyph_row n col x y line fg bg fb).fb_height ≡ fb.fb_height)
  unfolding draw_glyph_row
  draw_glyph_row-pixel zero col x y line fb x' y' h hx hy =
      let none_of_it : ((y' == y) && (leb (x + col) x' && ltb x' (x + col + 0))) ≡ false =
        ground arith in
      (rw none_of_it refl, h, refl, refl)
  draw_glyph_row-pixel (suc n) col x y line fb x' y' h hx hy =
      let put = putpixel (x + col) y (ink fg bg line col) fb in
      let (h', w', v') = putpixel-same (x + col) y (ink fg bg line col) fb h in
      let (rest, h'', w'', v'') =
        draw_glyph_row-pixel n (col + 1) x y line put x' y' h' (omega (arith, w'))
          (omega (arith, v')) in
      let one =
        getpixel-putpixel fb (ink fg bg line col) (x + col) y x' y' h (ink-IsColor line col)
          (omega arith) hy in
      (
        rest
            ∙ ap
                (λ old.
                  if (y' == y) && (leb (x + (col + 1)) x' && ltb x' (x + (col + 1) + n))
                  then ink fg bg line (x' - x)
                  else old)
                one
            ∙ joined n col x y line x' y' (getpixel x' y' fb),
        h'',
        w'' ∙ w',
        v'' ∙ v',
      )

  -- The rows of the glyph, from row `row` on.
  joined_rows :
      (n row x y x' y' : ℕ) (glyph : ℕ → ℕ) (old : Color)
      → (if (leb (y + (row + 1)) y' && ltb y' (y + (row + 1) + n)) && (leb x x' && ltb x' (x + 8))
          then ink fg bg (glyph (y' - y)) (x' - x)
          else if (y' == y + row) && (leb (x + 0) x' && ltb x' (x + 0 + 8))
          then ink fg bg (glyph row) (x' - x)
          else old)
        ≡ (if (leb (y + row) y' && ltb y' (y + row + suc n)) && (leb x x' && ltb x' (x + 8))
            then ink fg bg (glyph (y' - y)) (x' - x)
            else old)
  joined_rows n row x y x' y' glyph old =
      elim (Bool-cases ((y' == y + row) && (leb (x + 0) x' && ltb x' (x + 0 + 8)))) [
        | inl here ↦
            let before : ((leb (y + (row + 1)) y' && ltb y' (y + (row + 1) + n))
                  && (leb x x' && ltb x' (x + 8)))
                ≡ false =
              ground arith in
            let inside : ((leb (y + row) y' && ltb y' (y + row + suc n))
                  && (leb x x' && ltb x' (x + 8)))
                ≡ true =
              ground arith in
            let at_row : y' - y ≡ row = ground arith in rw (here, before, inside, at_row) refl
        | inr there ↦
            let same : ((leb (y + (row + 1)) y' && ltb y' (y + (row + 1) + n))
                  && (leb x x' && ltb x' (x + 8)))
                ≡ ((leb (y + row) y' && ltb y' (y + row + suc n)) && (leb x x' && ltb x' (x + 8))) =
              ground arith in
            rw (there, same) refl
      ]

  draw_glyph-pixel :
      (n row x y : ℕ) (glyph : ℕ → ℕ) (fb : Framebuffer) (x' y' : ℕ)
      → IsFramebuffer fb
      → x + 8 ≤ fb.fb_width
      → y + row + n ≤ fb.fb_height
      → getpixel x' y' (draw_glyph n row x y glyph fg bg fb) ≡ (
          if (leb (y + row) y' && ltb y' (y + row + n)) && (leb x x' && ltb x' (x + 8))
          then ink fg bg (glyph (y' - y)) (x' - x)
          else getpixel x' y' fb)
  unfolding draw_glyph
  draw_glyph-pixel zero row x y glyph fb x' y' h hx hy =
      let none_of_it : ((leb (y + row) y' && ltb y' (y + row + 0)) && (leb x x' && ltb x' (x + 8)))
          ≡ false =
        ground arith in
      rw none_of_it refl
  draw_glyph-pixel (suc n) row x y glyph fb x' y' h hx hy =
      let drawn = draw_glyph_row 8 0 x (y + row) (glyph row) fg bg fb in
      let (one, h', w', v') =
        draw_glyph_row-pixel 8 0 x (y + row) (glyph row) fb x' y' h (omega arith) (omega arith) in
      draw_glyph-pixel n (row + 1) x y glyph drawn x' y' h' (omega (arith, w')) (omega (arith, v'))
      ∙ ap
          (λ old.
            if (leb (y + (row + 1)) y' && ltb y' (y + (row + 1) + n))
              && (leb x x' && ltb x' (x + 8))
            then ink fg bg (glyph (y' - y)) (x' - x)
            else old)
          one
      ∙ joined_rows n row x y x' y' glyph (getpixel x' y' fb)

  -- A character drawn on the screen fills its cell of 8 by 16 pixels with its glyph, in the colour
  -- of the text where a bit is set and in that of the background elsewhere, and changes no pixel
  -- outside the cell.
  pub draw_char-glyph :
      (font : ℕ → ℕ → ℕ) (x y c : ℕ) (fb : Framebuffer) (x' y' : ℕ)
      → IsFramebuffer fb
      → x + 8 ≤ fb.fb_width
      → y + 16 ≤ fb.fb_height
      → getpixel x' y' (draw_char font x y c fg bg fb) ≡ (
          if (leb y y' && ltb y' (y + 16)) && (leb x x' && ltb x' (x + 8))
          then ink fg bg (font c (y' - y)) (x' - x)
          else getpixel x' y' fb)
  unfolding draw_char
  draw_char-glyph font x y c fb x' y' h hx hy =
      let on_screen : (ltb fb.fb_width (x + 8) || ltb fb.fb_height (y + 16)) ≡ false =
        ground arith in
      let whole : y + 0 ≡ y = omega arith in
      rw on_screen (
        draw_glyph-pixel 16 0 x y (font c) fb x' y' h hx (omega arith)
        ∙ ap
            (λ k.
              if (leb k y' && ltb y' (k + 16)) && (leb x x' && ltb x' (x + 8))
              then ink fg bg (font c (y' - y)) (x' - x)
              else getpixel x' y' fb)
            whole)
