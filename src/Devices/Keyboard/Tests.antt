-- ===== src/Devices/Keyboard/Tests.antt =====
-- A keyboard on which shift is held and a letter is typed.
use frog_kernel.Base.{◌≡◌, false, [], ◌∷◌, refl}
use frog_kernel.Thread.{running}
use frog_kernel.Devices.Tty.{Tty}
use frog_kernel.Devices.Keyboard.{
  Keyboard, Buf, keyboard_callback, buf_push, handle_key, plain_key, emit, char_of,
}
use frog_kernel.Devices.Keyboard.Buffer.{contents}

abbrev empty : Buf
empty = record { buf = λ i. 0; head = 63; tail = 63 }

abbrev tty : Tty
tty = record {
  ring = λ i. 0;
  ring_read = 0;
  ring_write = 0;
  ring_count = 0;
  line_len = 0;
  info = record { cols = 80; rows = 25; bg_color = 0; fg_color = 0; cursor_x = 0; cursor_y = 0 };
}

abbrev keyboard : Keyboard
keyboard = record {
  mods = 1;
  extended = false;
  keyboard_buf = empty;
  keyboard_dirty = false;
  term = record { tty = tty; echo = []; thread = running; schedule_pending = false };
}

-- The code 0x1e is the key A.
upper_case : contents (keyboard_callback keyboard 0x1e).keyboard_buf ≡ b'A' ∷ []
unfolding keyboard_callback handle_key plain_key emit char_of buf_push
upper_case = refl
