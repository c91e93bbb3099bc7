-- ===== src/Drivers/Display/Tests.antt =====
-- A display of four columns and two rows.
use hazle_os.Prelude.{arith}
use hazle_os.Drivers.Framebuffer.{color_black}
use hazle_os.Drivers.Framebuffer.Tests.{small_screen}
use hazle_os.Drivers.Display.{Display}
use hazle_os.Drivers.Display.Cursor.{IsOnDisplay}

abbrev pub small_display : Display
small_display = record {
  framebuffer = small_screen;
  current_fg = color_black;
  current_bg = color_black;
  cursor_x = 3;
  cursor_y = 1;
  columns = 4;
  rows = 2;
}

small_display-IsOnDisplay : IsOnDisplay small_display
small_display-IsOnDisplay = record {
  x_inside = omega arith;
  y_inside = omega arith;
  columns_small = omega arith;
  rows_small = omega arith;
}
