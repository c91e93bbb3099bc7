-- ===== src/Drivers/Vga/Cursor.antt =====
-- The cursor stays on the screen, and no character is written outside it.
use hazle_os.Prelude.{
  ℕ, zero, suc, ◌+◌, ◌-◌, ◌*◌, ◌%◌, ◌≤◌, ◌<◌, ◌≡◌, refl, ◌⊎◌, inl, inr, List, [], ◌∷◌, arith, leb,
  ltb, if◌then◌else◌, update, ◌∙◌, Bool-cases,
}
use native.Mathlib.Nat.{mul-le-mul_right}
use hazle_os.Drivers.Vga.{
  Screen, move_up, fill, scroll, print_char, wrap_line, wrap_screen, putchar, write, blank_cell,
}

-- The cursor is on the screen, and rows and columns fit into a byte.
pub record IsOnScreen (s : Screen) : Type 0 where
  pub x_inside : s.cursor_x < s.vga_width
  pub y_inside : s.cursor_y < s.vga_height
  pub width_small : s.vga_width ≤ 80
  pub height_small : s.vga_height ≤ 50
  pub width_tabs : s.vga_width % 4 ≡ 0

abbrev pub cells : Screen → ℕ
cells s = s.vga_width * s.vga_height

move_up-value :
    (width n i : ℕ) (b : ℕ → ℕ) (j : ℕ)
    → 0 < width
    → move_up width n i b j
      ≡ (if leb i j then (if ltb j (i + n) then b (j + width) else b j) else b j)
unfolding move_up
move_up-value width zero i b j h = ground arith
move_up-value width (suc n) i b j h =
    ground (arith, move_up-value width n (i + 1) (update b i (b (i + width))) j h)

fill-value :
    (value n i : ℕ) (b : ℕ → ℕ) (j : ℕ)
    → fill value n i b j ≡ (if leb i j then (if ltb j (i + n) then value else b j) else b j)
unfolding fill
fill-value value zero i b j = ground arith
fill-value value (suc n) i b j = ground (arith, fill-value value n (i + 1) (update b i value) j)

last_row : (height width : ℕ) → 0 < height → (height - 1) * width + width ≡ height * width
last_row zero width h = absurd (omega arith)
last_row (suc n) width h = let same : suc n - 1 ≡ n = omega arith in rw same (grind arith)

-- `vga_scroll` moves every row but the first up by one, blanks the last row, and touches no cell
-- outside the screen.
pub scroll-rows :
    (s : Screen) (j : ℕ)
    → 0 < s.vga_width
    → 0 < s.vga_height
    → (scroll s).vga_buffer j ≡ (
        if ltb j ((s.vga_height - 1) * s.vga_width)
        then s.vga_buffer (j + s.vga_width)
        else if ltb j (s.vga_height * s.vga_width)
        then blank_cell s.current_color
        else s.vga_buffer j)
unfolding scroll
scroll-rows s j hw hh =
    let last = (s.vga_height - 1) * s.vga_width in
    let rows : last + s.vga_width ≡ s.vga_height * s.vga_width =
      last_row s.vga_height s.vga_width hh in
    fill-value (blank_cell s.current_color) s.vga_width last
      (move_up s.vga_width last 0 s.vga_buffer) j
    ∙ ground (arith, rows, move_up-value s.vga_width last 0 s.vga_buffer j hw)

-- What one step leaves: the cells outside the screen, and the screen's size.
pub record IsKept (s t : Screen) : Type 0 where
  pub same_width : t.vga_width ≡ s.vga_width
  pub same_height : t.vga_height ≡ s.vga_height
  pub outside : (j : ℕ) → cells s ≤ j → t.vga_buffer j ≡ s.vga_buffer j

IsKept-trans : {s t u : Screen} → IsKept s t → IsKept t u → IsKept s u
IsKept-trans {s} {t} p q = record {
  same_width = q.same_width ∙ p.same_width;
  same_height = q.same_height ∙ p.same_height;
  outside = λ j h. q.outside j (rw (p.same_width, p.same_height) h) ∙ p.outside j h;
}

-- After the character itself the cursor may be one step past its row, or on the row below.
record IsNear (s : Screen) : Type 0 where
  x_near : s.cursor_x ≤ s.vga_width
  y_near : s.cursor_y ≤ s.vga_height
  not_both : (s.cursor_x < s.vga_width) ⊎ (s.cursor_y < s.vga_height)
  some_room : (0 < s.vga_width) × (0 < s.vga_height)
  width_small : s.vga_width ≤ 80
  height_small : s.vga_height ≤ 50
  width_tabs : s.vga_width % 4 ≡ 0

-- The cells of the cursor's row lie on the screen.
row_inside :
    (s : Screen) (x : ℕ) → IsOnScreen s → x < s.vga_width → s.cursor_y * s.vga_width + x < cells s
row_inside s x h hx =
    let rows : (s.cursor_y + 1) * s.vga_width ≤ s.vga_height * s.vga_width =
      mul-le-mul_right {m = s.cursor_y + 1} {n = s.vga_height} s.vga_width
        (omega (arith, h.y_inside)) in
    grind arith

print_char-IsNear : (c : ℕ) (s : Screen) → IsOnScreen s → IsNear (print_char c s)
unfolding print_char
print_char-IsNear c s h = record {
  x_near = ground (arith, h.x_inside, h.width_small, h.width_tabs);
  y_near = ground (arith, h.y_inside, h.height_small);
  not_both = ground (arith, h.y_inside, h.x_inside, h.height_small);
  some_room = ground (arith, h.y_inside, h.x_inside);
  width_small = ground (arith, h.width_small);
  height_small = ground (arith, h.height_small);
  width_tabs = ground (arith, h.width_tabs);
}

print_char-IsKept : (c : ℕ) (s : Screen) → IsOnScreen s → IsKept s (print_char c s)
unfolding print_char
print_char-IsKept c s h = record {
  same_width = ground arith;
  same_height = ground arith;
  outside = λ j far. ground (
    arith,
    row_inside s s.cursor_x h h.x_inside,
    row_inside s (s.cursor_x - 1) h (omega (arith, h.x_inside)),
  );
}

wrap_line-IsNear :
    (s : Screen) → IsNear s → IsNear (wrap_line s) × ((wrap_line s).cursor_x < s.vga_width)
unfolding wrap_line
wrap_line-IsNear s h = elim (Bool-cases (leb s.vga_width s.cursor_x)) [
  | inl past ↦ rw past (
    record {
      x_near = omega arith;
      y_near = ground (arith, h.not_both, h.height_small);
      not_both = inl (h.some_room.0);
      some_room = h.some_room;
      width_small = h.width_small;
      height_small = h.height_small;
      width_tabs = h.width_tabs;
    },
    h.some_room.0,
  )
  | inr fits ↦ rw fits (h, ground arith)
]

wrap_line-IsKept : (s : Screen) → IsKept s (wrap_line s)
unfolding wrap_line
wrap_line-IsKept s = record {
  same_width = ground arith;
  same_height = ground arith;
  outside = λ j far. ground arith;
}

wrap_screen-IsOnScreen :
    (s : Screen) → IsNear s → s.cursor_x < s.vga_width → IsOnScreen (wrap_screen s)
unfolding wrap_screen scroll
wrap_screen-IsOnScreen s h hx = record {
  x_inside = ground arith;
  y_inside = ground (arith, h.some_room);
  width_small = ground (arith, h.width_small);
  height_small = ground (arith, h.height_small);
  width_tabs = ground (arith, h.width_tabs);
}

wrap_screen-IsKept : (s : Screen) → IsNear s → IsKept s (wrap_screen s)
unfolding wrap_screen
wrap_screen-IsKept s h = elim (Bool-cases (leb s.vga_height s.cursor_y)) [
  | inl past ↦ rw past (record {
    same_width = unfold scroll in refl;
    same_height = unfold scroll in refl;
    outside = λ j far.
        scroll-rows s j h.some_room.0 h.some_room.1
        ∙ ground (arith, last_row s.vga_height s.vga_width h.some_room.1);
  })
  | inr fits ↦ rw fits (record { same_width = refl; same_height = refl; outside = λ j far. refl })
]

-- `vga_putchar` of any character keeps the cursor on the screen and the screen's size, and writes
-- no cell outside the screen.
pub putchar-IsOnScreen :
    (c : ℕ) (s : Screen) → IsOnScreen s → IsOnScreen (putchar c s) × IsKept s (putchar c s)
unfolding putchar
putchar-IsOnScreen c s h =
    let near = print_char-IsNear c s h in
    let (near', x) = wrap_line-IsNear (print_char c s) near in
    let kept = wrap_line-IsKept (print_char c s) in
    (
      wrap_screen-IsOnScreen (wrap_line (print_char c s)) near' (rw kept.same_width x),
      IsKept-trans (print_char-IsKept c s h)
          (IsKept-trans kept (wrap_screen-IsKept (wrap_line (print_char c s)) near')),
    )

IsKept-refl : (s : Screen) → IsKept s s
IsKept-refl s = record { same_width = refl; same_height = refl; outside = λ j h. refl }

-- `vga_write` of any text keeps the cursor on the screen and the screen's size, and writes no cell
-- outside the screen.
pub write-IsOnScreen :
    (text : List ℕ) (s : Screen)
    → IsOnScreen s
    → IsOnScreen (write text s) × IsKept s (write text s)
unfolding write
write-IsOnScreen [] s h = (h, IsKept-refl s)
write-IsOnScreen (c ∷ text) s h =
    let (h', kept) = putchar-IsOnScreen c s h in
    let (h'', more) = write-IsOnScreen text (putchar c s) h' in (h'', IsKept-trans kept more)
