-- ===== src/Devices/Keyboard.antt =====
-- The keyboard, src/devices/keyboard/keyboard.c and keyboard.h. The byte that `inb(0x60)` reads is an
-- argument of the handler.
pub mod Buffer
pub mod Keys
pub mod Typing
mod Tests
use frog_kernel.Base.{
  ℕ, zero, suc, ◌+◌, ◌-◌, ◌*◌, ◌/◌, ◌%◌, ◌^◌, Bool, true, false, not, ◌&&◌, ◌||◌, Option, none,
  some, ltb, leb, ◌==◌, if◌then◌else◌, List, [], ◌∷◌, length, get_or, bit_and, bit_or,
}
use frog_kernel.Base.Store.{Array, update}
use frog_kernel.Base.Int.{ℤ, pos, negsuc}
use frog_kernel.Devices.Tty.{Term, tty_input_push}

abbrev pub keyboard_buf_size : ℕ
keyboard_buf_size = 64

abbrev pub key_released : ℕ
key_released = 0x80

-- The modifiers by the number of their bit.
abbrev pub l_shift : ℕ
l_shift = 0

abbrev pub r_shift : ℕ
r_shift = 1

abbrev pub l_ctrl : ℕ
l_ctrl = 2

abbrev pub r_ctrl : ℕ
r_ctrl = 3

abbrev pub l_alt : ℕ
l_alt = 4

abbrev pub r_alt : ℕ
r_alt = 5

-- `scancode_map` and `scancode_map_shift`
abbrev pub scancode_map : List ℕ
scancode_map =
    0 ∷ 0 ∷ b'1' ∷ b'2' ∷ b'3' ∷ b'4' ∷ b'5' ∷ b'6' ∷ b'7' ∷ b'8' ∷ b'9' ∷ b'0' ∷ b'-' ∷ b'=' ∷ 8
    ∷ 9 ∷ b'q' ∷ b'w' ∷ b'e' ∷ b'r' ∷ b't' ∷ b'y' ∷ b'u' ∷ b'i' ∷ b'o' ∷ b'p' ∷ b'[' ∷ b']' ∷ 10 ∷ 0
    ∷ b'a' ∷ b's' ∷ b'd' ∷ b'f' ∷ b'g' ∷ b'h' ∷ b'j' ∷ b'k' ∷ b'l' ∷ b';' ∷ 39 ∷ b'`' ∷ 0 ∷ 92
    ∷ b'z' ∷ b'x' ∷ b'c' ∷ b'v' ∷ b'b' ∷ b'n' ∷ b'm' ∷ b',' ∷ b'.' ∷ b'/' ∷ 0 ∷ b'*' ∷ 0 ∷ b' ' ∷ []

abbrev pub scancode_map_shift : List ℕ
scancode_map_shift =
    0 ∷ 0 ∷ b'!' ∷ b'@' ∷ b'#' ∷ b'$' ∷ b'%' ∷ b'^' ∷ b'&' ∷ b'*' ∷ b'(' ∷ b')' ∷ b'_' ∷ b'+' ∷ 8
    ∷ 9 ∷ b'Q' ∷ b'W' ∷ b'E' ∷ b'R' ∷ b'T' ∷ b'Y' ∷ b'U' ∷ b'I' ∷ b'O' ∷ b'P' ∷ b'{' ∷ b'}' ∷ 10 ∷ 0
    ∷ b'A' ∷ b'S' ∷ b'D' ∷ b'F' ∷ b'G' ∷ b'H' ∷ b'J' ∷ b'K' ∷ b'L' ∷ b':' ∷ 34 ∷ b'~' ∷ 0 ∷ b'|'
    ∷ b'Z' ∷ b'X' ∷ b'C' ∷ b'V' ∷ b'B' ∷ b'N' ∷ b'M' ∷ b'<' ∷ b'>' ∷ b'?' ∷ 0 ∷ b'*' ∷ 0 ∷ b' ' ∷ []

-- `keyboard_buf_t`
pub record Buf : Type 0 where
  pub buf : Array ℕ
  pub head : ℕ
  pub tail : ℕ

-- `keyboard.mods`, `extended`, the buffer, the flag, and the terminal that gets the characters. The
-- fields `key` and `pressed` are never written.
pub record Keyboard : Type 0 where
  pub mods : ℕ
  pub extended : Bool
  pub keyboard_buf : Buf
  pub keyboard_dirty : Bool
  pub term : Term

unfoldable pub buf_push : Buf → (c : ℕ) → (released : Bool) → Buf
buf_push b c released =
    let next = (b.head + 1) % keyboard_buf_size in
    if next == b.tail then b else record {
      buf = update b.buf b.head (if released then bit_or c key_released else c);
      head = next;
      tail = b.tail;
    }

unfoldable pub buf_pop : Buf → Option (ℕ × Buf)
buf_pop b =
    if b.head == b.tail
    then none
    else some (b.buf b.tail, record b { tail = (b.tail + 1) % keyboard_buf_size })

-- The loop of `keyboard_read_wrap`: the bytes that it wrote, whose number it returns.
unfoldable pub keyboard_read_wrap : Buf → (len : ℕ) → List ℕ × Buf
keyboard_read_wrap b zero = ([], b)
keyboard_read_wrap b (suc len) = elim (buf_pop b) [
  | none ↦ ([], b)
  | some r ↦ (r.0 ∷ (keyboard_read_wrap r.1 len).0, (keyboard_read_wrap r.1 len).1)
]

abbrev pub keyboard_write_wrap : ℤ
keyboard_write_wrap = negsuc 0

-- `released ? mods & ~m : mods | m` for the modifier of bit `n`.
unfoldable pub set_mod : (mods n : ℕ) → (released : Bool) → ℕ
set_mod mods n released =
    if released then bit_and mods (2 ^ 32 - 1 - 2 ^ n) else bit_or mods (2 ^ n)

abbrev pub put_mod : Keyboard → (n : ℕ) → (released : Bool) → Keyboard
put_mod k n released = record k { mods = set_mod k.mods n released }

-- The part of the handler for a code behind 0xe0.
unfoldable pub extended_key : Keyboard → (code : ℕ) → (released : Bool) → Keyboard
extended_key k code released =
    let k' = record k { extended = false } in
    if code == 0x1d
    then put_mod k' r_ctrl released
    else if code == 0x38
    then put_mod k' r_alt released
    else k'

abbrev pub shifted : ℕ → Bool
shifted mods = not (bit_and mods 3 == 0)

unfoldable pub emit : Keyboard → (c : ℕ) → (released : Bool) → Keyboard
unfolding buf_push
emit k c released = if c == 0 then k else record {
  mods = k.mods;
  extended = k.extended;
  keyboard_buf = buf_push k.keyboard_buf c released;
  keyboard_dirty = true;
  term = if released then k.term else tty_input_push k.term c;
}

unfoldable pub char_of : (mods code : ℕ) → ℕ
char_of mods code = get_or (if shifted mods then scancode_map_shift else scancode_map) code 0

unfoldable pub plain_key : Keyboard → (code : ℕ) → (released : Bool) → Keyboard
unfolding emit char_of
plain_key k code released =
    if code == 0x2a
    then put_mod k l_shift released
    else if code == 0x36
    then put_mod k r_shift released
    else if code == 0x1d
    then put_mod k l_ctrl released
    else if code == 0x38
    then put_mod k l_alt released
    else if leb (length scancode_map) code
    then k
    else emit k (char_of k.mods code) released

-- The two halves of the handler behind the prefix, by the flag `extended`.
unfoldable pub handle_key : (extended : Bool) → Keyboard → (code : ℕ) → (released : Bool) → Keyboard
unfolding extended_key plain_key
handle_key true k code released = extended_key k code released
handle_key false k code released = plain_key k code released

unfoldable pub keyboard_callback : Keyboard → (scancode : ℕ) → Keyboard
unfolding handle_key
keyboard_callback k scancode =
    if scancode == 0xe0
    then record k { extended = true }
    else handle_key k.extended k (scancode % key_released) (leb key_released scancode)
