-- ===== src/Devices/Tty/Tests.antt =====
-- A terminal on which a line is typed and corrected.
use mathlib.Core.Option
use frog_kernel.Base.{ℕ, ◌≡◌, List, [], ◌∷◌, some, refl, arith, false}
use frog_kernel.Thread.{running}
use frog_kernel.Devices.Tty.{
  Tty, Term, tty_input_push, tty_read, await_line, has_newline, drain, wake, append, erase,
  console_putchar, backspace, newline,
}
use frog_kernel.Devices.Tty.Lines.{open_line}
use frog_kernel.Devices.Tty.Edit.{contents, IsValid, edit, tty_input_push_lem}
use frog_kernel.Devices.Tty.Read.{await, view, first_line, tty_read_lem}

abbrev tty : Tty
tty = record {
  ring = λ i. 0;
  ring_read = 255;
  ring_write = 255;
  ring_count = 0;
  line_len = 0;
  info = record { cols = 80; rows = 25; bg_color = 0; fg_color = 0; cursor_x = 0; cursor_y = 0 };
}

abbrev start : Term
start = record { tty = tty; echo = []; thread = running; schedule_pending = false }

tty-IsValid : IsValid tty
unfolding open_line
tty-IsValid = record { read = omega arith; count = omega arith; write = refl; line = refl }

tty_input_push_lem_example :
    IsValid (tty_input_push start b'a').tty
    × (contents (tty_input_push start b'a').tty ≡ edit (contents start.tty) b'a')
tty_input_push_lem_example = tty_input_push_lem start b'a' tty-IsValid

abbrev keys : List ℕ
keys = b'a' ∷ b'b' ∷ backspace ∷ b'c' ∷ newline ∷ b'd' ∷ []

-- The reader gets the corrected line, and the last key is still to come.
corrected :
    Option.map view (tty_read start 10 keys) ≡ some (b'a' ∷ b'c' ∷ newline ∷ [], [], b'd' ∷ [])
unfolding tty_read await_line has_newline drain tty_input_push wake append erase console_putchar
corrected = refl

tty_read_lem_example :
    (Option.map view (tty_read start 10 keys)
      ≡ Option.map (first_line 10) (await (contents start.tty) keys))
    × ((r : List ℕ × Term × List ℕ) → tty_read start 10 keys ≡ some r → IsValid r.1.tty)
tty_read_lem_example = tty_read_lem start 10 keys tty-IsValid
