-- ===== src/Screen.antt =====
-- The console, src/framebuffer/console.c: the cursor, and what is drawn, as a list of the cells that
-- `fb_fill_rect` and `fb_draw_char` are called for. The colours are constants of the console.
pub mod Cursor
mod Tests
use frog_kernel.Base.{
  ℕ, ◌+◌, ◌-◌, ◌*◌, ◌/◌, ◌%◌, ◌^◌, Bool, true, false, not, ◌&&◌, ltb, leb, ◌==◌, if◌then◌else◌,
  List, [], ◌∷◌, ◌++◌,
}

-- A call that draws: the cursor's cell in the foreground or the background, a character in a cell,
-- or the scroll by one row.
pub data Draw : Type 0 where
  cursor : (x y : ℕ) → Draw
  blank : (x y : ℕ) → Draw
  glyph : (x y c : ℕ) → Draw
  scroll : Draw

pub record Console : Type 0 where
  pub console_cols : ℕ
  pub console_rows : ℕ
  pub cursor_x : ℕ
  pub cursor_y : ℕ
  pub cursor_visible : Bool
  pub drawn : List Draw

abbrev pub draw : Console → Draw → Console
draw s d = record s { drawn = s.drawn ++ d ∷ [] }

-- `console_init` for the framebuffer's size in pixels, without the clearing.
unfoldable pub console_init : (width height : ℕ) → Console
console_init width height = record {
  console_cols = width / 8;
  console_rows = height / 16;
  cursor_x = 0;
  cursor_y = 0;
  cursor_visible = false;
  drawn = [];
}

unfoldable pub console_draw_cursor : Console → Console
console_draw_cursor s = draw s (cursor s.cursor_x s.cursor_y)

unfoldable pub console_clear_cursor : Console → Console
console_clear_cursor s = draw s (blank s.cursor_x s.cursor_y)

unfoldable pub console_update_cursor : Console → Console
unfolding console_draw_cursor console_clear_cursor
console_update_cursor s = if s.cursor_visible then console_draw_cursor s else console_clear_cursor s

unfoldable pub console_toggle_cursor : Console → Console
unfolding console_update_cursor
console_toggle_cursor s = console_update_cursor (record s { cursor_visible = not s.cursor_visible })

-- `console_cols - 1` on uint32_t
abbrev pub last_col : Console → ℕ
last_col s = (s.console_cols + 2 ^ 32 - 1) % 2 ^ 32

abbrev pub move : Console → (x y : ℕ) → Console
move s x y = record s { cursor_x = x; cursor_y = y }

abbrev pub step_back : Console → Console
step_back s =
    if ltb 0 s.cursor_x
    then move s (s.cursor_x - 1) s.cursor_y
    else if ltb 0 s.cursor_y
    then move s (last_col s) (s.cursor_y - 1)
    else s

abbrev pub wrap : Console → Console
wrap s = if leb (last_col s) s.cursor_x then move s 0 (s.cursor_y + 1) else s

abbrev pub put_glyph : Console → (c : ℕ) → Console
put_glyph s c = draw s (glyph s.cursor_x s.cursor_y c)

-- The four branches on the character.
unfoldable pub put : Console → (c : ℕ) → Console
put s c =
    if c == 10
    then move s 0 (s.cursor_y + 1)
    else if c == 13
    then move s 0 s.cursor_y
    else if c == 8
    then put_glyph (step_back s) b' '
    else let t = put_glyph (wrap s) c in move t (t.cursor_x + 1) t.cursor_y

unfoldable pub scroll_up : Console → Console
scroll_up s =
    if leb s.console_rows s.cursor_y
    then move (draw s scroll) s.cursor_x (s.console_rows - 1)
    else s

unfoldable pub console_putchar : Console → (c : ℕ) → Console
unfolding console_clear_cursor put scroll_up console_draw_cursor
console_putchar s c = record (console_draw_cursor (scroll_up (put (console_clear_cursor s) c))) {
  cursor_visible = true;
}
