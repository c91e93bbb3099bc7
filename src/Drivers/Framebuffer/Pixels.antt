-- ===== src/Drivers/Framebuffer/Pixels.antt =====
-- What the drawing functions do to the pixels of the screen.
use hazle_os.Prelude.{
  ==_refl, ne→==, ℕ, ◌+◌, ◌*◌, ◌/◌, ◌<◌, ◌≤◌, ◌≡◌, refl, ap, sym, ◌∙◌, inl, inr, true, false, ◌&&◌,
  ◌||◌, arith, leb, ◌==◌, if◌then◌else◌, Bool-cases,
}
use hazle_os.Drivers.Framebuffer.{
  Color, Framebuffer, pixel_of, color_of, offset, putpixel, getpixel,
}

-- The rows of the screen lie apart.
pub record IsFramebuffer (fb : Framebuffer) : Type 0 where
  pub row_fits : fb.fb_width ≤ fb.fb_pitch / 4

pub record IsColor (c : Color) : Type 0 where
  pub r_byte : c.r < 256
  pub g_byte : c.g < 256
  pub b_byte : c.b < 256
  pub a_byte : c.a < 256

quotient : (y x w : ℕ) → x < w → (y * w + x) / w ≡ y
quotient y x w h = grind arith

-- Two places in rows of width `w` are the same only if row and column are.
same_place : (x y x' y' w : ℕ) → x < w → x' < w → y * w + x ≡ y' * w + x' → (x ≡ x') × (y ≡ y')
same_place x y x' y' w hx hx' e =
    let row : y ≡ y' = sym (quotient y x w hx) ∙ ap (λ n. n / w) e ∙ quotient y' x' w hx' in
    let rows = ap (λ n. n * w) row in (omega (arith, e, rows), row)

color_of-pixel_of : (c : Color) → IsColor c → color_of (pixel_of c) ≡ c
color_of-pixel_of c h =
    let b : (color_of (pixel_of c)).b ≡ c.b = omega (arith, h.b_byte) in
    let g : (color_of (pixel_of c)).g ≡ c.g = omega (arith, h.b_byte, h.g_byte) in
    let r : (color_of (pixel_of c)).r ≡ c.r = omega (arith, h.b_byte, h.g_byte, h.r_byte) in
    let a : (color_of (pixel_of c)).a ≡ c.a =
      omega (arith, h.b_byte, h.g_byte, h.r_byte, h.a_byte) in
    rw (r, g, b, a) refl

-- A pixel of the screen reads as the colour that was put there, and every other one as before.
pub getpixel-putpixel :
    (fb : Framebuffer) (c : Color) (x y x' y' : ℕ)
    → IsFramebuffer fb
    → IsColor c
    → x < fb.fb_width
    → y < fb.fb_height
    → getpixel x' y' (putpixel x y c fb) ≡ (if (x' == x) && (y' == y) then c else getpixel x' y' fb)
unfolding getpixel putpixel
getpixel-putpixel fb c x y x' y' h hc hx hy =
    let on_screen : (leb fb.fb_width x || leb fb.fb_height y) ≡ false = ground arith in
    elim (Bool-cases (leb fb.fb_width x' || leb fb.fb_height y')) [
      | inl off ↦
          let other : ((x' == x) && (y' == y)) ≡ false = ground arith in
          rw (on_screen, off, other) refl
      | inr on ↦ elim (Bool-cases ((x' == x) && (y' == y))) [
        | inl here ↦
            let column : x' ≡ x = ground arith in
            let row : y' ≡ y = ground arith in
            let hit : (offset fb x' y' == offset fb x y) ≡ true =
              rw (column, row) (==_refl (offset fb x y)) in
            rw (on_screen, on, here, hit) (color_of-pixel_of c hc)
        | inr there ↦
            let miss : (offset fb x' y' == offset fb x y) ≡ false =
              ne→== (offset fb x' y') (offset fb x y) (λ e. apart on there e) in
            rw (on_screen, on, there, miss) refl
      ]
    ]
  where
    apart :
        (leb fb.fb_width x' || leb fb.fb_height y') ≡ false
        → ((x' == x) && (y' == y)) ≡ false
        → offset fb x' y' ≡ offset fb x y
        → ⊥
    apart on there e =
        let inside : x' < fb.fb_pitch / 4 = ground (arith, h.row_fits) in
        let same =
          same_place x' y' x y (fb.fb_pitch / 4) inside (omega (arith, hx, h.row_fits)) e in
        ground (arith, same)
