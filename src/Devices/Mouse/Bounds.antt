-- ===== src/Devices/Mouse/Bounds.antt =====
-- Where the pointer can be, and what the three bytes of a packet do, `mouse_callback` of
-- src/devices/mouse/mouse.c.
use frog_kernel.Base.{
  ℕ, ◌+◌, ◌-◌, ◌^◌, ◌≤◌, ◌<◌, ◌≡◌, min, Bool, true, false, ◌==◌, if◌then◌else◌, arith, Bool-cases,
  inl, inr, refl, ◌∙◌,
}
use frog_kernel.Base.Int.{ℤ, pos, negsuc, sub_ℕ}
use frog_kernel.Devices.Mouse.{Mouse, bit, clamp, finish_packet, mouse_callback, sign_x, sign_y}

-- The pointer is on the screen, and at most two bytes of a packet are there.
pub record IsOnScreen (width height : ℕ) (m : Mouse) : Type 0 where
  pub cycle : m.cycle ≤ 2
  pub mouse_x : m.mouse_x < width
  pub mouse_y : m.mouse_y < height

clamp-bound : (size : ℕ) (n : ℤ) → 0 < size → size < 2 ^ 32 → clamp size n < size
unfolding clamp
clamp-bound size (negsuc n) h k = ground arith
clamp-bound size (pos n) h k = ground arith

-- On a framebuffer of at least one pixel, a byte of the mouse leaves the pointer on the screen.
pub mouse_callback-IsOnScreen :
    (width height : ℕ) (m : Mouse) (byte : ℕ)
    → width < 2 ^ 32
    → height < 2 ^ 32
    → IsOnScreen width height m
    → IsOnScreen width height (mouse_callback width height m byte)
unfolding mouse_callback finish_packet
mouse_callback-IsOnScreen w h m byte hw hh v = elim (Bool-cases (m.cycle == 0)) [
  | inl first ↦ rw first (record { cycle = ground arith; mouse_x = v.mouse_x; mouse_y = v.mouse_y })
  | inr later ↦ rw later (elim (Bool-cases (m.cycle == 1)) [
    | inl second ↦
        rw second (record { cycle = omega arith; mouse_x = v.mouse_x; mouse_y = v.mouse_y })
    | inr other ↦ rw other (elim (Bool-cases (m.cycle == 2)) [
      | inl third ↦ rw third (record {
        cycle = omega arith;
        mouse_x = clamp-bound w _ (omega (arith, v.mouse_x)) hw;
        mouse_y = clamp-bound h _ (omega (arith, v.mouse_y)) hh;
      })
      | inr none_ ↦ rw none_ v
    ])
  ])
]

clamp-sub :
    (size a b : ℕ) → 0 < size → size < 2 ^ 32 → clamp size (sub_ℕ a b) ≡ min (a - b) (size - 1)
unfolding clamp
clamp-sub size a b h k = ground arith

signed :
    (neg : Bool) (a n : ℕ)
    → min (a - (if neg then 0x100 else 0)) n ≡ min (if neg then a - 256 else a) n
signed true a n = refl
signed false a n = omega arith

signed_up :
    (neg : Bool) (a b n : ℕ)
    → min (a + (if neg then 0x100 else 0) - b) n ≡ min (if neg then a + 256 - b else a - b) n
signed_up true a b n = refl
signed_up false a b n = omega arith

abbrev pub packet : (width height : ℕ) → Mouse → (flags dx dy : ℕ) → Mouse
packet w h m flags dx dy =
    mouse_callback w h (mouse_callback w h (mouse_callback w h m flags) dx) dy

-- Between packets, with the pointer on the screen: a byte without bit 0x08 is skipped. Three bytes
-- of which the first has it move the pointer by the two nine-bit numbers whose signs are bits 0x10
-- and 0x20 of the first, upwards for a positive dy, as far as the edges of the screen.
pub mouse_packet_lem :
    (width height : ℕ) (m : Mouse) (flags dx dy : ℕ)
    → width < 2 ^ 32
    → height < 2 ^ 32
    → IsOnScreen width height m
    → m.cycle ≡ 0
    → dx < 256
    → dy < 256
    → (bit 0x08 flags ≡ false → (mouse_callback width height m flags).cycle ≡ 0)
      × (bit 0x08 flags ≡ true
          → ((packet width height m flags dx dy).cycle ≡ 0)
            × ((packet width height m flags dx dy).x
                ≡ min (if bit 0x10 flags then m.mouse_x + dx - 256 else m.mouse_x + dx) (width - 1))
            × ((packet width height m flags dx dy).y
                ≡ min
                    (if bit 0x20 flags then m.mouse_y + 256 - dy else m.mouse_y - dy)
                    (height - 1)))
unfolding mouse_callback finish_packet
mouse_packet_lem w h m flags dx dy hw hh v start bx by = (
  λ skip. rw (start, skip) refl,
  λ sync.
      rw (start, sync)
        (
          refl,
          clamp-sub w (m.mouse_x + dx) (sign_x flags) (omega (arith, v.mouse_x)) hw
              ∙ signed (bit 0x10 flags) (m.mouse_x + dx) (w - 1),
          clamp-sub h (m.mouse_y + sign_y flags) dy (omega (arith, v.mouse_y)) hh
              ∙ signed_up (bit 0x20 flags) m.mouse_y dy (h - 1),
        ),
)
