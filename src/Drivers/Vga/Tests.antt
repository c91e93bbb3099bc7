-- ===== src/Drivers/Vga/Tests.antt =====
-- The text screen at concrete texts.
use hazle_os.Prelude.{ℕ, refl, [], ◌∷◌, arith}
use hazle_os.Drivers.Vga.{Screen, putchar, write}
use hazle_os.Drivers.Vga.Cursor.{IsOnScreen, IsKept, putchar-IsOnScreen, write-IsOnScreen}

-- The cursor in the last cell.
abbrev full : Screen
full = record {
  vga_buffer = λ i. i;
  current_color = 7;
  cursor_x = 79;
  cursor_y = 24;
  vga_width = 80;
  vga_height = 25;
}

full-IsOnScreen : IsOnScreen full
full-IsOnScreen = record {
  x_inside = omega arith;
  y_inside = omega arith;
  width_small = omega arith;
  height_small = omega arith;
  width_tabs = refl;
}

putchar-IsOnScreen_example : IsOnScreen (putchar b'x' full) × IsKept full (putchar b'x' full)
putchar-IsOnScreen_example = putchar-IsOnScreen b'x' full full-IsOnScreen

write-IsOnScreen_example :
    IsOnScreen (write (b'x' ∷ 10 ∷ 9 ∷ []) full) × IsKept full (write (b'x' ∷ 10 ∷ 9 ∷ []) full)
write-IsOnScreen_example = write-IsOnScreen (b'x' ∷ 10 ∷ 9 ∷ []) full full-IsOnScreen

abbrev second_row : ℕ
second_row = 80
