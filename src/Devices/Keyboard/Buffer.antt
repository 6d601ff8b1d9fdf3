-- ===== src/Devices/Keyboard/Buffer.antt =====
-- The ring buffer of src/devices/keyboard/keyboard.c as a queue of at most 63 bytes.

use frog_kernel.Base.{
  ℕ, zero, suc, ◌+◌, ◌-◌, ◌%◌, ◌<◌, ◌≡◌, ◌∙◌, refl, sym, ap, Bool, true, false, List, [], ◌∷◌, ◌++◌,
  leb, length, ◌==◌, arith, Bool-cases, inl, inr, if◌then◌else◌, bit_or, take, drop,
}
use frog_kernel.Base.Store.{update}
use frog_kernel.Devices.Ring.{window, length-window, window-mod, window-push}
use frog_kernel.Devices.Keyboard.{Buf, buf_push, buf_pop, keyboard_read_wrap, key_released}

pub record IsValid (b : Buf) : Type 0 where
  pub head : b.head < 64
  pub tail : b.tail < 64

abbrev pub count : Buf → ℕ
count b = (b.head + 64 - b.tail) % 64

-- The bytes that wait to be read.
abbrev pub contents : Buf → List ℕ
contents b = window b.buf 64 b.tail (count b)

-- On a valid buffer `buf_push` appends the character, with bit 0x80 for a key that is released, if
-- fewer than 63 bytes wait, and drops it otherwise. The buffer stays valid.
pub buf_push_lem :
    (b : Buf) (c : ℕ) (released : Bool)
    → IsValid b
    → IsValid (buf_push b c released)
      × (contents (buf_push b c released) ≡ (
          if leb 63 (length (contents b))
          then contents b
          else contents b ++ (if released then bit_or c key_released else c) ∷ []))
unfolding buf_push
buf_push_lem b c released v =
    rw (length-window b.buf 64 b.tail (count b)) (elim (Bool-cases ((b.head + 1) % 64 == b.tail)) [
      | inl full ↦ rw (full, is_full full) (v, refl)
      | inr room ↦
          rw (room, has_room room) (record { head = omega arith; tail = v.tail }, pushed room)
    ])
  where
    byte : ℕ
    byte = if released then bit_or c key_released else c

    is_full : ((b.head + 1) % 64 == b.tail) ≡ true → leb 63 (count b) ≡ true
    is_full e = ground (arith, v.head, v.tail)

    has_room : ((b.head + 1) % 64 == b.tail) ≡ false → leb 63 (count b) ≡ false
    has_room e = ground (arith, v.head, v.tail)

    at : (b.tail + count b) % 64 ≡ b.head
    at = omega (arith, v.head, v.tail)

    more :
        ((b.head + 1) % 64 == b.tail) ≡ false
        → ((b.head + 1) % 64 + 64 - b.tail) % 64 ≡ suc (count b)
    more e = ground (arith, v.head, v.tail)

    pushed :
        ((b.head + 1) % 64 == b.tail) ≡ false
        → window (update b.buf b.head byte) 64 b.tail (((b.head + 1) % 64 + 64 - b.tail) % 64)
          ≡ contents b ++ byte ∷ []
    pushed e =
        ap (λ n. window (update b.buf b.head byte) 64 b.tail n) (more e)
        ∙ ap (λ h. window (update b.buf h byte) 64 b.tail (suc (count b))) (sym at)
        ∙ window-push b.buf 64 b.tail (count b) byte (omega arith)

-- On a valid buffer `keyboard_read_wrap` returns the oldest bytes, as many as there are and the
-- caller's buffer takes, and leaves the others. The buffer stays valid.
pub keyboard_read_wrap_lem :
    (b : Buf) (len : ℕ)
    → IsValid b
    → IsValid (keyboard_read_wrap b len).1
      × ((keyboard_read_wrap b len).0 ≡ take len (contents b))
      × (contents (keyboard_read_wrap b len).1 ≡ drop len (contents b))
unfolding keyboard_read_wrap buf_pop
keyboard_read_wrap_lem b zero v = (v, refl, refl)
keyboard_read_wrap_lem b (suc len) v = elim (Bool-cases (b.head == b.tail)) [
  | inl empty ↦ rw (keyboard_read_wrap, buf_pop, empty, nothing empty) (v, refl, refl)
  | inr held ↦
      let (w, e, f) = keyboard_read_wrap_lem popped len popped-IsValid in
      rw (keyboard_read_wrap, buf_pop, held, cut held) (w, ap (λ q. b.buf b.tail ∷ q) e, f)
]
  where
    popped : Buf
    popped = record b { tail = (b.tail + 1) % 64 }

    popped-IsValid : IsValid popped
    popped-IsValid = record { head = v.head; tail = omega arith }

    none_there : (b.head == b.tail) ≡ true → count b ≡ 0
    none_there e = ground (arith, v.head, v.tail)

    nothing : (b.head == b.tail) ≡ true → contents b ≡ []
    nothing e = ap (λ n. window b.buf 64 b.tail n) (none_there e)

    one_less : (b.head == b.tail) ≡ false → count b ≡ suc (count popped)
    one_less e = ground (arith, v.head, v.tail)

    inside : b.tail % 64 ≡ b.tail
    inside = omega (arith, v.tail)

    cut : (b.head == b.tail) ≡ false → contents b ≡ b.buf b.tail ∷ contents popped
    cut e =
        ap (λ n. window b.buf 64 b.tail n) (one_less e)
        ∙ rw
            (
              inside,
              window-mod b.buf 64 (b.tail + 1) ((b.tail + 1) % 64) (count popped) (omega arith),
            )
            refl
