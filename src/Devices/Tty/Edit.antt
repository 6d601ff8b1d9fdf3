-- ===== src/Devices/Tty/Edit.antt =====
-- What a key does to the queue of the terminal, `tty_input_push` of src/devices/tty/tty.c.
use frog_kernel.Base.{
  ℕ, suc, ◌+◌, ◌-◌, ◌%◌, ◌≤◌, ◌<◌, ◌≡◌, ◌∙◌, refl, sym, ap, true, List, [], ◌∷◌, ◌++◌, ltb, leb,
  length, ◌==◌, arith, Bool-cases, inl, inr, if◌then◌else◌,
}
use frog_kernel.Base.Store.{update}
use frog_kernel.Devices.Ring.{window, length-window, window-snoc, window-push}
use frog_kernel.Devices.Tty.{
  Tty, Term, tty_ring_size, backspace, erase, append, wake, console_putchar, tty_input_push,
}
use frog_kernel.Devices.Tty.Lines.{
  open_line, open_line-snoc, open_line-length, drop_last, drop_last-snoc,
}

-- The characters that wait to be read.
abbrev pub contents : Tty → List ℕ
contents t = window t.ring tty_ring_size t.ring_read t.ring_count

pub record IsValid (t : Tty) : Type 0 where
  pub read : t.ring_read < 256
  pub count : t.ring_count ≤ 256
  pub write : t.ring_write ≡ (t.ring_read + t.ring_count) % 256
  pub line : t.line_len ≡ open_line (contents t)

-- What a key should do to the queue: a backspace takes the last character off the line that is
-- being typed, and off no other; any other key is appended if there is room.
unfoldable pub edit : List ℕ → ℕ → List ℕ
edit q c =
    if c == backspace
    then if open_line q == 0 then q else drop_last q
    else if leb 256 (length q)
    then q
    else q ++ c ∷ []

append_lem :
    (t : Tty) (c : ℕ)
    → IsValid t
    → t.ring_count < 256
    → IsValid (append t c) × (contents (append t c) ≡ contents t ++ c ∷ [])
unfolding append
append_lem t c v room = (
  record {
    read = v.read;
    count = omega arith;
    write = omega (arith, v.write);
    line = rw (pushed, open_line-snoc (contents t) c, v.line) refl;
  },
  pushed,
)
  where
    next : (n : ℕ) → n + 1 ≡ suc n
    next n = omega arith

    pushed :
        window (update t.ring t.ring_write c) 256 t.ring_read (t.ring_count + 1)
        ≡ contents t ++ c ∷ []
    pushed = rw v.write (
        ap (λ n. window (update t.ring ((t.ring_read + t.ring_count) % 256) c) 256 t.ring_read n)
          (next t.ring_count)
        ∙ window-push t.ring 256 t.ring_read t.ring_count c room)

erase_lem :
    (t : Tty)
    → IsValid t
    → 0 < t.line_len
    → IsValid (erase t) × (contents (erase t) ≡ drop_last (contents t))
unfolding erase
erase_lem t v h = rw some_left (
  record {
    read = v.read;
    count = omega (arith, v.count);
    write = omega (arith, v.write, v.count, held);
    line = ground (arith, open_line-snoc kept last, ap open_line cut, v.line);
  },
  sym (ap drop_last cut ∙ drop_last-snoc kept last),
)
  where
    held : 0 < t.ring_count
    held =
        omega
          (arith, open_line-length (contents t), length-window t.ring 256 t.ring_read t.ring_count)

    one_more : t.ring_count ≡ suc (t.ring_count - 1)
    one_more = omega (arith, held)

    some_left : ltb 0 t.ring_count ≡ true
    some_left = ground (arith, held)

    kept : List ℕ
    kept = window t.ring 256 t.ring_read (t.ring_count - 1)

    last : ℕ
    last = t.ring ((t.ring_read + (t.ring_count - 1)) % 256)

    cut : contents t ≡ kept ++ last ∷ []
    cut =
        ap (λ n. window t.ring 256 t.ring_read n) one_more
        ∙ window-snoc t.ring 256 t.ring_read (t.ring_count - 1)

wake-tty : (s : Term) → (wake s).tty ≡ s.tty
unfolding wake
wake-tty s = ground arith

-- On a valid terminal a key edits the queue as `edit` says, and the terminal stays valid: the ring
-- stays in its 256 bytes, and `line_len` is the number of characters behind the last newline.
pub tty_input_push_lem :
    (s : Term) (c : ℕ)
    → IsValid s.tty
    → IsValid (tty_input_push s c).tty
      × (contents (tty_input_push s c).tty ≡ edit (contents s.tty) c)
unfolding tty_input_push console_putchar edit
tty_input_push_lem s c v = elim (Bool-cases (c == backspace)) [
  | inl back ↦
      rw (back, sym v.line)
        (elim (Bool-cases (s.tty.line_len == 0)) [
          | inl empty ↦ rw empty (v, refl)
          | inr typed ↦ rw typed (erase_lem s.tty v (ground arith))
        ])
  | inr other ↦
      rw (other, length-window s.tty.ring 256 s.tty.ring_read s.tty.ring_count)
        (elim (Bool-cases (leb 256 s.tty.ring_count)) [
          | inl full ↦ rw full (v, refl)
          | inr room ↦
              rw (room, wake-tty (console_putchar (record s { tty = append s.tty c }) c))
                (append_lem s.tty c v (ground arith))
        ])
]
