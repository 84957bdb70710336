-- ===== src/Screen/Cursor.antt =====
-- Where the cursor of kernel/eshell/eshell.c can be, and which cells it writes.
use l_ost.Common.{ℕ, ◌≤◌, ◌<◌, ◌≡◌, refl, ◌∙◌, false, List, [], ◌∷◌, arith, ◌==◌}
use l_ost.Screen.{
  Screen, put_cells, disp_start, disp_str, step_back, place_char, wrap_line, scroll, set_color,
  write_screen_char, write_screen,
}

-- The cursor and its margins stand on the first 24 of the 25 rows.
pub record OnScreen (s : Screen) : Type 0 where
  pub column : (1 ≤ s.x) × (s.x ≤ 80)
  pub row : s.y ≤ 23
  pub margin : (1 ≤ s.minx) × (s.minx ≤ 80)
  pub margin_row : s.miny ≤ 23
  pub unlocked : s.lock_last_line ≡ false

pub set_color-OnScreen : (color : ℕ) (s : Screen) → OnScreen s → OnScreen (set_color color s)
unfolding set_color
set_color-OnScreen color s h = record {
  column = h.column;
  row = h.row;
  margin = h.margin;
  margin_row = h.margin_row;
  unlocked = h.unlocked;
}

-- What one part of `write_screen_char` does to everything but the cells.
record Between (s : Screen) : Type 0 where
  pub column : (1 ≤ s.x) × (s.x ≤ 81)
  pub row : s.y ≤ 24
  pub margin : (1 ≤ s.minx) × (s.minx ≤ 80)
  pub margin_row : s.miny ≤ 23
  pub unlocked : s.lock_last_line ≡ false

place_char-Between : (c : ℕ) (s : Screen) → OnScreen s → Between (place_char c s)
unfolding place_char step_back disp_str
place_char-Between c s h = ground (arith, h.column, h.row, h.margin, h.margin_row, h.unlocked)

finish-OnScreen : (s : Screen) → Between s → OnScreen (scroll (wrap_line s))
unfolding scroll wrap_line
finish-OnScreen s h = ground (arith, h.column, h.row, h.margin, h.margin_row, h.unlocked)

-- The one cell that a character goes to.
disp_start-inside : (x y : ℕ) → 1 ≤ x → x ≤ 80 → y ≤ 23 → disp_start x y 1 < 1920
unfolding disp_start
disp_start-inside x y lo hi row = omega arith

disp_str-outside :
    (c i : ℕ) (s : Screen)
    → OnScreen s
    → 1920 ≤ i
    → (disp_str s.x s.y (c ∷ []) s).cells i ≡ s.cells i
unfolding disp_str put_cells
disp_str-outside c i s h out =
    let inside = disp_start-inside s.x s.y h.column.0 h.column.1 h.row in
    let other : (i == disp_start s.x s.y 1) ≡ false = ground arith in rw other refl

step_back-cells : (s : Screen) → (step_back s).cells ≡ s.cells
unfolding step_back
step_back-cells s = ground arith

place_char-outside :
    (c i : ℕ) (s : Screen) → OnScreen s → 1920 ≤ i → (place_char c s).cells i ≡ s.cells i
unfolding place_char
place_char-outside c i s h out =
    ground (arith, disp_str-outside c i s h out, disp_str-outside b' ' i s h out, step_back-cells s)

finish-outside : (i : ℕ) (s : Screen) → 2000 ≤ i → (scroll (wrap_line s)).cells i ≡ s.cells i
unfolding scroll wrap_line
finish-outside i s out = ground arith

pub write_screen_char-OnScreen :
    (c : ℕ) (s : Screen)
    → OnScreen s
    → OnScreen (write_screen_char c s)
      × ((i : ℕ) → 2000 ≤ i → (write_screen_char c s).cells i ≡ s.cells i)
unfolding write_screen_char
write_screen_char-OnScreen c s h = (
  finish-OnScreen (place_char c s) (place_char-Between c s h),
  λ i out. finish-outside i (place_char c s) out ∙ place_char-outside c i s h (omega arith),
)

-- From a cursor and margins on the first 24 rows, with lock_last_line not set, writing any text
-- leaves them there, and changes no cell behind the 25 rows of the frame buffer, nor one before it.
pub write_screen-OnScreen :
    (str : List ℕ) (s : Screen)
    → OnScreen s
    → OnScreen (write_screen str s)
      × ((i : ℕ) → 2000 ≤ i → (write_screen str s).cells i ≡ s.cells i)
unfolding write_screen
write_screen-OnScreen [] s h = (h, λ i out. refl)
write_screen-OnScreen (c ∷ cs) s h =
    let (next, kept) = write_screen_char-OnScreen c s h in
    let (end, rest) = write_screen-OnScreen cs (write_screen_char c s) next in
    (end, λ i out. rest i out ∙ kept i out)
