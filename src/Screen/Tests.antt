-- ===== src/Screen/Tests.antt =====
-- The screen at a concrete cursor, and the theorem at it.
use l_ost.Common.{ℕ, ◌≤◌, ◌≡◌, refl, false, List, [], ◌∷◌, arith}
use l_ost.Screen.{Screen, write_screen}
use l_ost.Screen.Cursor.{OnScreen, write_screen-OnScreen}

-- At the end of the last row in use.
abbrev corner : Screen
corner = record {
  cells = λ i. i;
  base_color = 7;
  x = 80;
  y = 23;
  minx = 3;
  miny = 2;
  lock_last_line = false;
}

abbrev hello : List ℕ
hello = b'h' ∷ 8 ∷ b'i' ∷ 10 ∷ []

corner-OnScreen : OnScreen corner
corner-OnScreen = record {
  column = (omega arith, omega arith);
  row = omega arith;
  margin = (omega arith, omega arith);
  margin_row = omega arith;
  unlocked = refl;
}

write_screen-OnScreen_example :
    OnScreen (write_screen hello corner)
    × ((i : ℕ) → 2000 ≤ i → (write_screen hello corner).cells i ≡ i)
write_screen-OnScreen_example = write_screen-OnScreen hello corner corner-OnScreen
