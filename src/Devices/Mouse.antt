-- ===== src/Devices/Mouse.antt =====
-- The mouse, src/devices/mouse/mouse.c: the handler, with the byte that `inb(0x60)` reads as an
-- argument. Between two interrupts the position is never negative, so it is a natural number.
pub mod Bounds
use frog_kernel.Base.{
  ℕ, ◌+◌, ◌-◌, ◌*◌, ◌/◌, ◌%◌, ◌^◌, Bool, true, false, not, ◌&&◌, ltb, leb, ◌==◌, if◌then◌else◌,
}
use frog_kernel.Base.Int.{ℤ, pos, negsuc, sub_ℕ}

-- `mouse_state_t`
pub record Buttons : Type 0 where
  pub left : Bool
  pub right : Bool
  pub middle : Bool
  pub left_clicked : Bool
  pub right_clicked : Bool
  pub middle_clicked : Bool

-- `mouse_cycle`, `mouse_packet`, `mouse_x` and `mouse_y`, and `mouse`.
pub record Mouse : Type 0 where
  pub cycle : ℕ
  pub packet0 : ℕ
  pub packet1 : ℕ
  pub packet2 : ℕ
  pub mouse_x : ℕ
  pub mouse_y : ℕ
  pub x : ℕ
  pub y : ℕ
  pub buttons : Buttons

abbrev pub bit : (mask x : ℕ) → Bool
bit mask x = x / mask % 2 == 1

-- `(packet[0] << 4) & 0x100` and `(packet[0] << 3) & 0x100`
abbrev pub sign_x : ℕ → ℕ
sign_x p = if bit 0x10 p then 0x100 else 0

abbrev pub sign_y : ℕ → ℕ
sign_y p = if bit 0x20 p then 0x100 else 0

-- Below 0 becomes 0, and from `size` on the last pixel.
unfoldable pub clamp : (size : ℕ) → ℤ → ℕ
clamp size (negsuc n) = if leb size 0 then (size + 2 ^ 32 - 1) % 2 ^ 32 else 0
clamp size (pos n) = if leb size n then (size + 2 ^ 32 - 1) % 2 ^ 32 else n

abbrev pub click : (packet : ℕ) → Buttons → Buttons
click p b = record {
  left = bit 0x01 p;
  right = bit 0x02 p;
  middle = bit 0x04 p;
  left_clicked = bit 0x01 p && not b.left;
  right_clicked = bit 0x02 p && not b.right;
  middle_clicked = bit 0x04 p && not b.middle;
}

-- The third byte completes a packet: `mouse_x += dx` and `mouse_y -= dy`.
unfoldable pub finish_packet : (width height : ℕ) → Mouse → (byte : ℕ) → Mouse
unfolding clamp
finish_packet width height m byte =
    let x' = clamp width (sub_ℕ (m.mouse_x + m.packet1) (sign_x m.packet0)) in
    let y' = clamp height (sub_ℕ (m.mouse_y + sign_y m.packet0) byte) in
    record {
      cycle = 0;
      packet0 = m.packet0;
      packet1 = m.packet1;
      packet2 = byte;
      mouse_x = x';
      mouse_y = y';
      x = x';
      y = y';
      buttons = click m.packet0 m.buttons;
    }

unfoldable pub mouse_callback : (width height : ℕ) → Mouse → (byte : ℕ) → Mouse
unfolding finish_packet
mouse_callback width height m byte =
    if m.cycle == 0
    then record m { packet0 = byte; cycle = if bit 0x08 byte then 1 else 0 }
    else if m.cycle == 1
    then record m { packet1 = byte; cycle = 2 }
    else if m.cycle == 2
    then finish_packet width height m byte
    else m
