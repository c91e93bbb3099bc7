-- ===== src/Drivers/Display/Cursor.antt =====
-- The cursor of the display stays on the screen.
use hazle_os.Prelude.{
  ℕ, ◌-◌, ◌^◌, ◌≤◌, ◌<◌, ◌≡◌, refl, ◌⊎◌, inl, inr, [], ◌∷◌, arith, leb, ltb, ◌==◌, Bool-cases,
}
use hazle_os.Libc.{CString}
use hazle_os.Drivers.Display.{Display, scroll, print_char, wrap_line, wrap_screen, putchar, write}

-- The cursor is on the screen, and the sizes leave room for one step.
pub record IsOnDisplay (d : Display) : Type 0 where
  pub x_inside : d.cursor_x < d.columns
  pub y_inside : d.cursor_y < d.rows
  pub columns_small : d.columns < 2 ^ 16 - 4
  pub rows_small : d.rows < 2 ^ 16

-- After the character itself the cursor may be past its row, or on the row below the last.
record IsNear (d : Display) : Type 0 where
  some_column : 0 < d.columns
  some_row : 0 < d.rows
  y_near : d.cursor_y ≤ d.rows
  not_both : (d.cursor_x < d.columns) ⊎ (d.cursor_y < d.rows)
  columns_small : d.columns < 2 ^ 16 - 4
  rows_small : d.rows < 2 ^ 16

module _ (font : ℕ → ℕ → ℕ) where
  print_char-IsNear : (c : ℕ) (d : Display) → IsOnDisplay d → IsNear (print_char font c d)
  unfolding print_char
  print_char-IsNear c d h = elim (Bool-cases (c == 10)) [
    | inl newline ↦ rw newline (record {
      some_column = omega (arith, h.x_inside);
      some_row = omega (arith, h.y_inside);
      y_near = omega (arith, h.y_inside, h.rows_small);
      not_both = inl (omega (arith, h.x_inside));
      columns_small = h.columns_small;
      rows_small = h.rows_small;
    })
    | inr c1 ↦ elim (Bool-cases (c == 13)) [
      | inl return ↦ rw (c1, return) (stays _ refl refl refl)
      | inr c2 ↦ elim (Bool-cases (c == 9)) [
        | inl tab ↦ rw (c1, c2, tab) (stays _ refl refl refl)
        | inr c3 ↦ elim (Bool-cases (c == 8)) [
          | inl back ↦
              rw (c1, c2, c3, back)
                (elim (Bool-cases (ltb 0 d.cursor_x)) [
                  | inl some_left ↦ rw some_left (stays _ refl refl refl)
                  | inr at_start ↦ rw at_start (stays _ refl refl refl)
                ])
          | inr other ↦ rw (c1, c2, c3, other) (stays _ refl refl refl)
        ]
      ]
    ]
  ]
    where
      stays :
          (e : Display)
          → e.columns ≡ d.columns
          → e.rows ≡ d.rows
          → e.cursor_y ≡ d.cursor_y
          → IsNear e
      stays e same_columns same_rows same_y = record {
        some_column = omega (arith, same_columns, h.x_inside);
        some_row = omega (arith, same_rows, h.y_inside);
        y_near = omega (arith, same_rows, same_y, h.y_inside);
        not_both = inr (omega (arith, same_rows, same_y, h.y_inside));
        columns_small = omega (arith, same_columns, h.columns_small);
        rows_small = omega (arith, same_rows, h.rows_small);
      }

-- Then the line wraps, and the cursor is at most one row below.
record IsBelow (d : Display) : Type 0 where
  x_inside : d.cursor_x < d.columns
  some_row : 0 < d.rows
  y_near : d.cursor_y ≤ d.rows
  columns_small : d.columns < 2 ^ 16 - 4
  rows_small : d.rows < 2 ^ 16

wrap_line-IsBelow : (d : Display) → IsNear d → IsBelow (wrap_line d)
unfolding wrap_line
wrap_line-IsBelow d h = elim (Bool-cases (leb d.columns d.cursor_x)) [
  | inl past ↦
      let above : d.cursor_y < d.rows = ground (arith, h.not_both) in
      rw (past, wrap_line)
        (record {
          x_inside = h.some_column;
          some_row = h.some_row;
          y_near = omega (arith, above, h.rows_small);
          columns_small = h.columns_small;
          rows_small = h.rows_small;
        })
  | inr inside ↦
      rw (inside, wrap_line)
        (record {
          x_inside = ground arith;
          some_row = h.some_row;
          y_near = h.y_near;
          columns_small = h.columns_small;
          rows_small = h.rows_small;
        })
]

wrap_screen-IsOnDisplay : (d : Display) → IsBelow d → IsOnDisplay (wrap_screen d)
unfolding wrap_screen scroll
wrap_screen-IsOnDisplay d h = elim (Bool-cases (leb d.rows d.cursor_y)) [
  | inl past ↦
      rw (past, wrap_screen)
        (record {
          x_inside = h.x_inside;
          y_inside = omega (arith, h.some_row, h.rows_small);
          columns_small = h.columns_small;
          rows_small = h.rows_small;
        })
  | inr inside ↦
      rw (inside, wrap_screen)
        (record {
          x_inside = h.x_inside;
          y_inside = ground arith;
          columns_small = h.columns_small;
          rows_small = h.rows_small;
        })
]

module _ (font : ℕ → ℕ → ℕ) where
  pub putchar-IsOnDisplay : (c : ℕ) (d : Display) → IsOnDisplay d → IsOnDisplay (putchar font c d)
  unfolding putchar
  putchar-IsOnDisplay c d h =
      wrap_screen-IsOnDisplay (wrap_line (print_char font c d))
        (wrap_line-IsBelow (print_char font c d) (print_char-IsNear font c d h))

  -- From a cursor on the screen, `display_write` leaves it on the screen, whatever it writes.
  pub write-IsOnDisplay :
      (str : CString) (d : Display) → IsOnDisplay d → IsOnDisplay (write font str d)
  unfolding write
  write-IsOnDisplay [] d h = h
  write-IsOnDisplay (c ∷ str) d h =
      write-IsOnDisplay str (putchar font c d) (putchar-IsOnDisplay c d h)
