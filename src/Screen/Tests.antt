-- ===== src/Screen/Tests.antt =====
-- A console of 80 by 25 cells with the cursor in the last column of the last row.
use frog_kernel.Base.{◌≡◌, true, false, not, [], ◌∷◌, ◌++◌, arith, refl}
use frog_kernel.Screen.{Console, console_putchar, blank, glyph, scroll, cursor}
use frog_kernel.Screen.Cursor.{IsOnScreen, all_within, falls_off, console_putchar-within}

abbrev corner : Console
corner = record {
  console_cols = 80;
  console_rows = 25;
  cursor_x = 79;
  cursor_y = 24;
  cursor_visible = false;
  drawn = [];
}

corner-IsOnScreen : IsOnScreen corner
corner-IsOnScreen = record {
  cols = omega arith;
  small = omega arith;
  rows = omega arith;
  x = omega arith;
  y = omega arith;
}

falls : falls_off corner b'a' ≡ true
unfolding falls_off
falls = refl

console_putchar-within_example :
    (all_within 80 25 (console_putchar corner b'a').drawn ≡ not (falls_off corner b'a'))
    × (falls_off corner b'a' ≡ true
        → (console_putchar corner b'a').drawn
          ≡ ((([] ++ blank 79 24 ∷ []) ++ glyph 0 25 b'a' ∷ []) ++ scroll ∷ []) ++ cursor 1 24 ∷ [])
unfolding all_within
console_putchar-within_example = console_putchar-within corner b'a' corner-IsOnScreen refl
