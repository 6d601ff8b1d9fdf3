-- ===== src/Devices/Tty/Read.antt =====
-- What a reader gets, `tty_read` of src/devices/tty/tty.c.
use mathlib.Core.Option
use mathlib.Core.Path.{subst}
use frog_kernel.Base.{
  ℕ, zero, suc, ◌+◌, ◌-◌, ◌%◌, ◌<◌, ◌≡◌, ◌∙◌, refl, sym, ap, true, List, [], ◌∷◌, ltb, ◌==◌, arith,
  Bool-cases, inl, inr, if◌then◌else◌, Option, none, some,
}
use frog_kernel.Base.Store.{Array}
use frog_kernel.Thread.{running, blocked}
use frog_kernel.Devices.Ring.{window, window-mod}
use frog_kernel.Devices.Tty.{
  Tty, Term, newline, taken, drain, has_newline, tty_input_push, await_line, tty_read, set_thread,
}
use frog_kernel.Devices.Tty.Lines.{open_line, open_line-read, ends_line}
use frog_kernel.Devices.Tty.Edit.{contents, IsValid, edit, tty_input_push_lem}

-- The first line of a queue, newline included, as far as `len` bytes go, and what comes behind it.
unfoldable pub split_line : ℕ → List ℕ → List ℕ × List ℕ
split_line zero q = ([], q)
split_line (suc len) [] = ([], [])
split_line (suc len) (c ∷ q) =
    let rest = split_line len q in if c == newline then (newline ∷ [], q) else (c ∷ rest.0, rest.1)

-- The queue once it holds a whole line, with the keys that are left.
unfoldable pub await : List ℕ → (keys : List ℕ) → Option (List ℕ × List ℕ)
await q [] = if ends_line q then some (q, []) else none
await q (c ∷ keys) =
    let later = await (edit q c) keys in if ends_line q then some (q, c ∷ keys) else later

contents-taken :
    (t : Tty) → 0 < t.ring_count → IsValid t → contents t ≡ t.ring t.ring_read ∷ contents (taken t)
contents-taken t h v =
    ap (λ n. window t.ring 256 t.ring_read n) one_more
    ∙ rw
        (
          inside,
          window-mod t.ring 256 (t.ring_read + 1) ((t.ring_read + 1) % 256) (t.ring_count - 1)
              (omega arith),
        )
        refl
  where
    one_more : t.ring_count ≡ suc (t.ring_count - 1)
    one_more = omega (arith, h)

    inside : t.ring_read % 256 ≡ t.ring_read
    inside = omega (arith, v.read)

taken-IsValid :
    (t : Tty) → 0 < t.ring_count → ends_line (contents t) ≡ true → IsValid t → IsValid (taken t)
taken-IsValid t h line v = record {
  read = omega arith;
  count = omega (arith, v.count);
  write = omega (arith, v.write, v.read);
  line =
      v.line
      ∙ ap open_line cut
      ∙ open_line-read (t.ring t.ring_read) (contents (taken t)) (sym (ap ends_line cut) ∙ line);
}
  where
    cut : contents t ≡ t.ring t.ring_read ∷ contents (taken t)
    cut = contents-taken t h v

nonempty : (ring : Array ℕ) (size i n : ℕ) → ends_line (window ring size i n) ≡ true → 0 < n
nonempty ring size i zero h = ground arith
nonempty ring size i (suc n) h = omega arith

pub drain_lem :
    (t : Tty) (len : ℕ)
    → IsValid t
    → ends_line (contents t) ≡ true
    → IsValid (drain t len).1
      × (((drain t len).0, contents (drain t len).1) ≡ split_line len (contents t))
unfolding drain split_line
drain_lem t zero v line = (v, refl)
drain_lem t (suc len) v line = elim (Bool-cases (t.ring t.ring_read == newline)) [
  | inl ends ↦ rw (drain, some_left, cut, ends) (v', refl)
  | inr goes_on ↦
      let (w, e) = drain_lem (taken t) len v' (ground (arith, line, ap ends_line cut)) in
      rw (drain, some_left, cut, goes_on) (w, ap (λ r. (t.ring t.ring_read ∷ r.0, r.1)) e)
]
  where
    held : 0 < t.ring_count
    held = nonempty t.ring 256 t.ring_read t.ring_count line

    some_left : ltb 0 t.ring_count ≡ true
    some_left = ground (arith, held)

    cut : contents t ≡ t.ring t.ring_read ∷ contents (taken t)
    cut = contents-taken t held v

    v' : IsValid (taken t)
    v' = taken-IsValid t held line v

has_newline_lem :
    (t : Tty) (n i : ℕ) → has_newline t n i ≡ ends_line (window t.ring 256 (t.ring_read + i) n)
unfolding has_newline
has_newline_lem t zero i = refl
has_newline_lem t (suc n) i = elim (Bool-cases (t.ring ((t.ring_read + i) % 256) == newline)) [
  | inl found ↦ rw (has_newline, found) refl
  | inr other ↦
      rw (has_newline, other)
        (has_newline_lem t n (i + 1) ∙ ap (λ k. ends_line (window t.ring 256 k n)) (omega arith))
]

abbrev pub view : List ℕ × Term × List ℕ → List ℕ × List ℕ × List ℕ
view (out, s, keys) = (out, contents s.tty, keys)

abbrev pub first_line : ℕ → List ℕ × List ℕ → List ℕ × List ℕ × List ℕ
first_line len (q, keys) = ((split_line len q).0, (split_line len q).1, keys)

scan : (t : Tty) → has_newline t t.ring_count 0 ≡ ends_line (contents t)
scan t =
    has_newline_lem t t.ring_count 0
    ∙ ap (λ k. ends_line (window t.ring 256 k t.ring_count)) (omega arith)

-- A valid terminal with a whole line, if the waiting ends.
abbrev HasLine : Option (Term × List ℕ) → Type 0
HasLine none = Unit
HasLine (some (s, keys)) = IsValid s.tty × (ends_line (contents s.tty) ≡ true)

await_line_lem :
    (s : Term) (keys : List ℕ)
    → IsValid s.tty
    → (Option.map (λ r. (contents r.0.tty, r.1)) (await_line s keys) ≡ await (contents s.tty) keys)
      × HasLine (await_line s keys)
unfolding await_line await
await_line_lem s [] v = elim (Bool-cases (ends_line (contents s.tty))) [
  | inl line ↦ rw (scan s.tty, line) (refl, (v, line))
  | inr typing ↦ rw (scan s.tty, typing) (refl, tt)
]
await_line_lem s (c ∷ keys) v = elim (Bool-cases (ends_line (contents s.tty))) [
  | inl line ↦ rw (scan s.tty, line) (refl, (v, line))
  | inr typing ↦
      let asleep = record s { thread = blocked; schedule_pending = true } in
      let (w, e) = tty_input_push_lem asleep c v in
      let (m, ok) = await_line_lem (set_thread (tty_input_push asleep c) running) keys w in
      rw (scan s.tty, typing) (m ∙ ap (λ q. await q keys) e, ok)
]

abbrev Left : Option (List ℕ × Term × List ℕ) → Type 0
Left none = Unit
Left (some (out, s, keys)) = IsValid s.tty

abbrev finish : ℕ → Term × List ℕ → List ℕ × Term × List ℕ
finish len (s, keys) = ((drain s.tty len).0, record s { tty = (drain s.tty len).1 }, keys)

-- What follows the waiting.
finish_lem :
    (len : ℕ) (o : Option (Term × List ℕ))
    → HasLine o
    → (Option.map view (Option.map (finish len) o)
        ≡ Option.map (first_line len) (Option.map (λ r. (contents r.0.tty, r.1)) o))
      × Left (Option.map (finish len) o)
finish_lem len none h = (refl, tt)
finish_lem len (some (s, keys)) (v, line) =
    let (w, e) = drain_lem s.tty len v line in (ap (λ r. some (r.0, r.1, keys)) e, w)

tty_read-finish :
    (s : Term) (len : ℕ) (keys : List ℕ)
    → tty_read s len keys ≡ Option.map (finish len) (await_line s keys)
unfolding tty_read
tty_read-finish s len keys = refl

-- On a valid terminal, `tty_read` waits until the queue, edited by the keys that come, holds a whole
-- line; if the keys never make one it does not return. It then returns the first line with its
-- newline, or as much of it as the buffer takes, leaves the rest of the queue to be read, and keeps
-- the terminal valid.
pub tty_read_lem :
    (s : Term) (len : ℕ) (keys : List ℕ)
    → IsValid s.tty
    → (Option.map view (tty_read s len keys)
        ≡ Option.map (first_line len) (await (contents s.tty) keys))
      × ((r : List ℕ × Term × List ℕ) → tty_read s len keys ≡ some r → IsValid r.1.tty)
tty_read_lem s len keys v =
    let (e, line) = await_line_lem s keys v in
    let (f, ok) = finish_lem len (await_line s keys) line in
    (
      ap (Option.map view) (tty_read-finish s len keys) ∙ f ∙ ap (Option.map (first_line len)) e,
      λ r q. subst Left (sym (tty_read-finish s len keys) ∙ q) ok,
    )
