-- ===== src/Devices/Tty.antt =====
-- The terminal, src/devices/tty/tty.c. The console is a record of what was put on it, and the thread
-- that runs is its state; what comes while a reader waits is a list.
pub mod Lines
pub mod Edit
pub mod Read
mod Tests
use frog_kernel.Base.{
  ℕ, zero, suc, ◌+◌, ◌-◌, ◌*◌, ◌/◌, ◌%◌, ◌^◌, Bool, true, false, not, ◌&&◌, ◌||◌, Option, none,
  some, ltb, leb, ◌==◌, if◌then◌else◌, List, [], ◌∷◌, ◌++◌, length,
}
use frog_kernel.Base.Store.{Array, update}
use frog_kernel.Base.Int.{ℤ, pos, negsuc}
use frog_kernel.Thread.{State, ready, running, blocked, dead}

abbrev pub tty_ring_size : ℕ
tty_ring_size = 256

abbrev pub backspace : ℕ
backspace = 8

abbrev pub newline : ℕ
newline = 10

-- `tty_info_t`
pub record Info : Type 0 where
  pub cols : ℕ
  pub rows : ℕ
  pub bg_color : ℕ
  pub fg_color : ℕ
  pub cursor_x : ℕ
  pub cursor_y : ℕ

-- `tty_t`
pub record Tty : Type 0 where
  pub ring : Array ℕ
  pub ring_read : ℕ
  pub ring_write : ℕ
  pub ring_count : ℕ
  pub line_len : ℕ
  pub info : Info

-- The terminal, what it put on the console so far, the state of `curr_thread` and the flag.
pub record Term : Type 0 where
  pub tty : Tty
  pub echo : List ℕ
  pub thread : State
  pub schedule_pending : Bool

unfoldable pub console_putchar : Term → ℕ → Term
console_putchar s c = record s { echo = s.echo ++ c ∷ [] }

-- The part of `tty_input_push` for `\b`.
unfoldable pub erase : Tty → Tty
erase t =
    if ltb 0 t.ring_count
    then record t {
      ring_write = (t.ring_write + tty_ring_size - 1) % tty_ring_size;
      ring_count = t.ring_count - 1;
      line_len = t.line_len - 1;
    }
    else t

unfoldable pub append : Tty → ℕ → Tty
append t c = record t {
  ring = update t.ring t.ring_write c;
  ring_write = (t.ring_write + 1) % tty_ring_size;
  ring_count = t.ring_count + 1;
  line_len = if c == newline then 0 else t.line_len + 1;
}

-- `if (curr_thread->state == THREAD_BLOCKED) ...`
unfoldable pub wake : Term → Term
wake s = elim s.thread [
  | blocked ↦ record s { thread = ready; schedule_pending = true }
  | ready ↦ s
  | running ↦ s
  | dead ↦ s
]

unfoldable pub tty_input_push : Term → ℕ → Term
unfolding console_putchar erase append wake
tty_input_push s c =
    if c == backspace
    then if s.tty.line_len == 0 then s else console_putchar (record s { tty = erase s.tty }) c
    else if leb tty_ring_size s.tty.ring_count
    then s
    else wake (console_putchar (record s { tty = append s.tty c }) c)

-- The scan for a newline, from offset `i` over the rounds left.
unfoldable pub has_newline : Tty → (rounds i : ℕ) → Bool
has_newline t zero i = false
has_newline t (suc n) i = elim (t.ring ((t.ring_read + i) % tty_ring_size) == newline) [
  | true ↦ true
  | false ↦ has_newline t n (i + 1)
]

abbrev pub taken : Tty → Tty
taken t = record t { ring_read = (t.ring_read + 1) % tty_ring_size; ring_count = t.ring_count - 1 }

-- The loop that copies to the buffer: the bytes that it wrote, over `len - n`.
unfoldable pub drain : Tty → (len : ℕ) → List ℕ × Tty
drain t zero = ([], t)
drain t (suc len) = elim (ltb 0 t.ring_count) [
  | false ↦ ([], t)
  | true ↦ elim (t.ring t.ring_read == newline) [
    | true ↦ (newline ∷ [], taken t)
    | false ↦ (t.ring t.ring_read ∷ (drain (taken t) len).0, (drain (taken t) len).1)
  ]
]

abbrev pub set_thread : Term → State → Term
set_thread s st = record s { thread = st }

-- The waiting of `tty_read`. A wait ends with an interrupt, here with the next key of `keys`, and
-- `none` is a reader that still waits when they are used up. A timer's interrupt changes nothing
-- that the loop reads.
unfoldable pub await_line : Term → (keys : List ℕ) → Option (Term × List ℕ)
unfolding has_newline tty_input_push
await_line s [] = if has_newline s.tty s.tty.ring_count 0 then some (s, []) else none
await_line s (c ∷ keys) =
    let asleep = record s { thread = blocked; schedule_pending = true } in
    let later = await_line (set_thread (tty_input_push asleep c) running) keys in
    if has_newline s.tty s.tty.ring_count 0 then some (s, c ∷ keys) else later

-- `tty_read`: the bytes in the buffer, whose number is returned, and the keys that are still to come.
unfoldable pub tty_read : Term → (len : ℕ) → (keys : List ℕ) → Option (List ℕ × Term × List ℕ)
unfolding await_line drain
tty_read s len keys = elim (await_line s keys) [
  | none ↦ none
  | some r ↦ some ((drain r.0.tty len).0, record r.0 { tty = (drain r.0.tty len).1 }, r.1)
]

-- The cursor is the console's.
abbrev pub put_cursor : Tty → (cursor_x cursor_y : ℕ) → Tty
put_cursor t x y = record t {
  info = record {
    cols = t.info.cols;
    rows = t.info.rows;
    bg_color = t.info.bg_color;
    fg_color = t.info.fg_color;
    cursor_x = x;
    cursor_y = y;
  };
}

unfoldable pub put_all : Term → List ℕ → Term
unfolding console_putchar
put_all s [] = s
put_all s (c ∷ cs) = put_all (console_putchar s c) cs

-- `cursor` gives the console's cursor after what was put on it.
unfoldable pub tty_write : (cursor : List ℕ → ℕ × ℕ) → Term → List ℕ → ℤ × Term
unfolding put_all
tty_write cursor s buf =
    let s' = put_all s buf in
    let (x, y) = cursor s'.echo in (pos (length buf), record s' { tty = put_cursor s'.tty x y })

-- `TTY_GET_INFO` copies the record out.
unfoldable pub tty_ioctl : (cursor : List ℕ → ℕ × ℕ) → Term → (request : ℕ) → ℤ × Option Info × Term
tty_ioctl cursor s request =
    if request == 0x01
    then (let (x, y) = cursor s.echo in
        let t = put_cursor s.tty x y in (pos 0, some t.info, record s { tty = t }))
    else (negsuc 0, none, s)
