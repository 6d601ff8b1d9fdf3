-- ===== src/Screen/Cursor.antt =====
-- Where `console_putchar` of src/framebuffer/console.c draws, and where it leaves the cursor.
use frog_kernel.Base.{
  ℕ, ◌+◌, ◌-◌, ◌^◌, ◌≤◌, ◌<◌, ◌≡◌, ◌∙◌, Bool, true, not, ◌&&◌, ltb, leb, ◌==◌, List, [], ◌∷◌, ◌++◌,
  arith, Bool-cases, inl, inr, refl,
}
use frog_kernel.Screen.{
  Draw, cursor, blank, glyph, scroll, Console, last_col, console_clear_cursor, console_draw_cursor,
  put, scroll_up, console_putchar, step_back, wrap,
}

-- The cell is on the screen.
abbrev pub within : (cols rows : ℕ) → Draw → Bool
within cols rows (cursor x y) = ltb x cols && ltb y rows
within cols rows (blank x y) = ltb x cols && ltb y rows
within cols rows (glyph x y c) = ltb x cols && ltb y rows
within cols rows scroll = true

unfoldable pub all_within : (cols rows : ℕ) → List Draw → Bool
all_within cols rows [] = true
all_within cols rows (d ∷ ds) = within cols rows d && all_within cols rows ds

all_within-snoc :
    (cols rows : ℕ) (ds : List Draw) (d : Draw)
    → all_within cols rows (ds ++ d ∷ []) ≡ (all_within cols rows ds && within cols rows d)
unfolding all_within
all_within-snoc cols rows [] d = ground arith
all_within-snoc cols rows (e ∷ ds) d = ground (arith, all_within-snoc cols rows ds d)

pub record IsOnScreen (s : Console) : Type 0 where
  pub cols : 2 ≤ s.console_cols
  pub small : s.console_cols < 2 ^ 32
  pub rows : 1 ≤ s.console_rows
  pub x : s.cursor_x < s.console_cols
  pub y : s.cursor_y < s.console_rows

-- The character is drawn, and wraps to a row below the last.
unfoldable pub falls_off : Console → ℕ → Bool
falls_off s c =
    not (c == 8)
    && not (c == 10)
    && not (c == 13)
    && leb (last_col s) s.cursor_x
    && s.cursor_y + 1 == s.console_rows

-- On a console of at least two columns and one row, a character leaves the cursor on the screen.
pub console_putchar-IsOnScreen :
    (s : Console) (c : ℕ) → IsOnScreen s → IsOnScreen (console_putchar s c)
unfolding console_putchar console_clear_cursor put scroll_up console_draw_cursor
console_putchar-IsOnScreen s c v = record {
  cols = ground (arith, v.cols);
  small = ground (arith, v.small);
  rows = ground (arith, v.rows);
  x = ground (arith, v.x, v.cols, v.small);
  y = ground (arith, v.y, v.rows);
}

drawn_before : (s : Console) → ((step_back s).drawn ≡ s.drawn) × ((wrap s).drawn ≡ s.drawn)
drawn_before s = ground arith

step_back-inside :
    (s : Console)
    → IsOnScreen s
    → ((step_back s).cursor_x < s.console_cols) × ((step_back s).cursor_y < s.console_rows)
step_back-inside s v = ground (arith, v.x, v.y, v.cols, v.small)

-- The cell to which a printing character goes.
wrap-inside :
    (s : Console)
    → IsOnScreen s
    → ((wrap s).cursor_x < s.console_cols)
      × (ltb (wrap s).cursor_y s.console_rows
          ≡ not (leb (last_col s) s.cursor_x && s.cursor_y + 1 == s.console_rows))
wrap-inside s v = ground (arith, v.x, v.y, v.cols, v.small)

glyph-within :
    (s t : Console) (c : ℕ)
    → t.drawn ≡ s.drawn
    → t.cursor_x < s.console_cols
    → all_within s.console_cols s.console_rows (t.drawn ++ glyph t.cursor_x t.cursor_y c ∷ [])
      ≡ (all_within s.console_cols s.console_rows s.drawn && ltb t.cursor_y s.console_rows)
glyph-within s t c e h =
    all_within-snoc s.console_cols s.console_rows t.drawn (glyph t.cursor_x t.cursor_y c)
    ∙ rw e (ground (arith, h))

put-within :
    (s : Console) (c : ℕ)
    → IsOnScreen s
    → all_within s.console_cols s.console_rows (put s c).drawn
      ≡ (all_within s.console_cols s.console_rows s.drawn && not (falls_off s c))
unfolding put falls_off
put-within s c v = elim (Bool-cases (c == 10)) [
  | inl line ↦ rw line (ground arith)
  | inr not_line ↦ rw not_line (elim (Bool-cases (c == 13)) [
    | inl home ↦ rw home (ground arith)
    | inr not_home ↦ rw not_home (elim (Bool-cases (c == 8)) [
      | inl back ↦ rw back (
          ground (
            arith,
            glyph-within s (step_back s) b' ' (drawn_before s).0 (step_back-inside s v).0,
            step_back-inside s v,
          ))
      | inr printing ↦ rw printing (
          ground (
            arith,
            glyph-within s (wrap s) c (drawn_before s).1 (wrap-inside s v).0,
            wrap-inside s v,
          ))
    ])
  ])
]

scroll_up-within :
    (cols rows : ℕ) (s : Console)
    → all_within cols rows (scroll_up s).drawn ≡ all_within cols rows s.drawn
unfolding scroll_up
scroll_up-within cols rows s = ground (arith, all_within-snoc cols rows s.drawn scroll)

cleared : (s : Console) (c : ℕ) → falls_off (console_clear_cursor s) c ≡ falls_off s c
unfolding falls_off console_clear_cursor
cleared s c = refl

all_within-putchar :
    (s : Console) (c : ℕ)
    → IsOnScreen s
    → all_within s.console_cols s.console_rows s.drawn ≡ true
    → all_within s.console_cols s.console_rows (console_putchar s c).drawn ≡ not (falls_off s c)
unfolding console_putchar console_clear_cursor scroll_up console_draw_cursor
all_within-putchar s c v h =
    let w = console_putchar-IsOnScreen s c v in
    let t = console_clear_cursor s in
    all_within-snoc s.console_cols s.console_rows (scroll_up (put t c)).drawn
      (cursor (scroll_up (put t c)).cursor_x (scroll_up (put t c)).cursor_y)
    ∙ rw (scroll_up-within s.console_cols s.console_rows (put t c)) (
        ground (
          arith,
          put-within t c
              (record { cols = v.cols; small = v.small; rows = v.rows; x = v.x; y = v.y }),
          cleared s c,
          all_within-snoc s.console_cols s.console_rows s.drawn (blank s.cursor_x s.cursor_y),
          w.x,
          w.y,
          v.x,
          v.y,
          h,
        ))

drawn_below :
    (s : Console) (c : ℕ)
    → IsOnScreen s
    → falls_off s c ≡ true
    → (console_putchar s c).drawn
      ≡ (((s.drawn ++ blank s.cursor_x s.cursor_y ∷ []) ++ glyph 0 s.console_rows c ∷ [])
          ++ scroll ∷ [])
        ++ cursor 1 (s.console_rows - 1) ∷ []
unfolding console_putchar console_clear_cursor put scroll_up console_draw_cursor falls_off
drawn_below s c v h = ground (arith, h, v.x, v.y, v.cols, v.small, v.rows)

-- On a console of at least two columns, fewer than 2^32, and one row, with the cursor on the screen, if
-- everything that was drawn so far lies on the screen, then so does everything that is drawn after a
-- character, unless the character is a printing one that wraps from the last row. In that case its
-- glyph is drawn in the row below the screen, after the old cursor is cleared and before the screen
-- scrolls and the new cursor is drawn.
pub console_putchar-within :
    (s : Console) (c : ℕ)
    → IsOnScreen s
    → all_within s.console_cols s.console_rows s.drawn ≡ true
    → (all_within s.console_cols s.console_rows (console_putchar s c).drawn ≡ not (falls_off s c))
      × (falls_off s c ≡ true
          → (console_putchar s c).drawn
            ≡ (((s.drawn ++ blank s.cursor_x s.cursor_y ∷ []) ++ glyph 0 s.console_rows c ∷ [])
                ++ scroll ∷ [])
              ++ cursor 1 (s.console_rows - 1) ∷ [])
console_putchar-within s c v h = (all_within-putchar s c v h, drawn_below s c v)
