-- ===== src/Screen.antt =====
-- The text screen of kernel/graphics/vga.c, and the cursor of kernel/eshell/eshell.c on it. The
-- cursor's numbers are `int` patterns of 32 bits. A cell of the frame buffer is named by its index,
-- also a pattern: the index -1 is the cell before the buffer. A string is the list of its bytes.
pub mod Cursor
mod Tests
use l_ost.Common.{
  ℕ, zero, suc, ◌+◌, ◌-◌, ◌*◌, ◌/◌, ◌%◌, ◌^◌, ◌≤◌, ◌<◌, ◌≡◌, ◌≢◌, refl, sym, ap, ◌∙◌, ◌↔◌, ◌⊎◌, inl,
  inr, Bool, true, false, ◌&&◌, ◌||◌, not, Option, none, some, List, [], ◌∷◌, ◌++◌, arith,
  ℕ_discrete, dec_lt, ltb, leb, ◌==◌, if◌then◌else◌, Bool-cases, Option-cases, length, u8, u16, u32,
  mask, bit_field, slt, promote,
}

-- `vga_buffer` and `base_color`, and the cursor of the shell with its margins and flag.
pub record Screen : Type 0 where
  pub cells : ℕ → ℕ
  pub base_color : ℕ
  pub x : ℕ
  pub y : ℕ
  pub minx : ℕ
  pub miny : ℕ
  pub lock_last_line : Bool

-- `a <= b` on two `int` patterns.
abbrev sle : ℕ → ℕ → Bool
sle a b = not (slt b a)

-- `str[i] | base_color << 8` in a cell of 16 bits: a byte above 127 fills the upper half.
abbrev pub cell : (c color : ℕ) → ℕ
cell c color = if ltb c 128 then c + 256 * color else 0xff00 + c

-- `while(str[i]) vga_buffer[start++] = str[i++] | base_color << 8;`.
pub put_cells : (start : ℕ) → List ℕ → (color : ℕ) → (ℕ → ℕ) → ℕ → ℕ
put_cells start [] color cells = cells
put_cells start (c ∷ cs) color cells =
    put_cells (u32 (start + 1)) cs color (λ i. if i == start then cell c color else cells i)

-- The index of the first cell in `disp_str`.
pub disp_start : (x y n : ℕ) → ℕ
disp_start x y n = u32 (x + y * 80 + 2 ^ 32 - n / 2 + 2 ^ 32 - 1)

pub disp_str : (x y : ℕ) → List ℕ → Screen → Screen
disp_str x y str s = record s {
  cells = put_cells (disp_start x y (length str)) str s.base_color s.cells;
}

pub set_color : (color : ℕ) → Screen → Screen
set_color color s = record s { base_color = u8 color }

-- `textmode_print_load`; `loadstr` is its text, "Loading lOSt".
abbrev loadstr : List ℕ
loadstr = b'L' ∷ b'o' ∷ b'a' ∷ b'd' ∷ b'i' ∷ b'n' ∷ b'g' ∷ b' ' ∷ b'l' ∷ b'O' ∷ b'S' ∷ b't' ∷ []

pub textmode_print_load : Screen → Screen
textmode_print_load s = record s {
  cells = put_cells (80 * 11 + 80 / 2 - 13 / 2 - 1) loadstr s.base_color s.cells;
}

pub tmp_putc : (c : ℕ) → Screen → Screen
tmp_putc c s = disp_str s.x s.y (c ∷ []) s

-- The branch of `write_screen_char` on a backspace.
pub step_back : Screen → Screen
step_back s =
    let left = u32 (s.x + 2 ^ 32 - 1) in
    let x1 = if sle left s.minx then s.minx else left in
    let y1 = if sle s.y s.miny then s.miny else s.y in
    if slt x1 1
    then (if s.lock_last_line
        then record s { x = 80; y = u32 (y1 + 2 ^ 32 - 1) }
        else record s { x = 1; y = y1 })
    else record s { x = x1; y = y1 }

-- The first part of `write_screen_char`.
pub place_char : (c : ℕ) → Screen → Screen
place_char c s =
    if c == 10
    then (let s1 = disp_str s.x s.y (b' ' ∷ []) s in record s1 { x = 1; y = u32 (s.y + 1) })
    else if c == 13
    then record s { x = 1 }
    else if c == 8
    then step_back s
    else (let s1 = disp_str s.x s.y (c ∷ []) s in record s1 { x = u32 (s.x + 1) })

-- `if(x > 80)`.
pub wrap_line : Screen → Screen
wrap_line s = if slt 80 s.x then record s { x = 1; y = u32 (s.y + 1) } else s

-- `kmemcpy(framebuffer + 160, framebuffer, 80*25 * 2)`, which takes each of the 2000 cells from the
-- row below, and what follows `if(y >= 24)`.
pub scroll : Screen → Screen
scroll s =
    if slt s.y 24
    then s
    else record s { cells = λ i. if ltb i 2000 then s.cells (i + 80) else s.cells i; y = 23; x = 1 }

unfoldable pub write_screen_char : (c : ℕ) → Screen → Screen
write_screen_char c s = scroll (wrap_line (place_char c s))

unfoldable pub write_screen : List ℕ → Screen → Screen
write_screen [] s = s
write_screen (c ∷ cs) s = write_screen cs (write_screen_char c s)
