-- ===== src/Devices/Clock/Bcd.antt =====
-- Reading the clock of the CMOS, src/devices/rtc/rtc.c: the two forms of its bytes, and the hours.
use frog_kernel.Base.{
  ℕ, ◌+◌, ◌-◌, ◌*◌, ◌/◌, ◌%◌, ◌≤◌, ◌<◌, ◌≡◌, true, false, if◌then◌else◌, arith, refl, Bool-cases,
  inl, inr,
}
use frog_kernel.Base.Store.{Array}
use frog_kernel.Devices.Clock.{Time, bcd_to_binary, decode, decode_hours, rtc_read_time, bit}

-- The byte of the clock for a number, by bit 0x04 of register B: as it is, or a digit in each half.
unfoldable pub encode : (reg_b n : ℕ) → ℕ
encode reg_b n = if bit 0x04 reg_b then n else n / 10 * 16 + n % 10

pub decode-encode : (reg_b n : ℕ) → n < 100 → decode reg_b (encode reg_b n) ≡ n
unfolding decode encode bcd_to_binary
decode-encode reg_b n h = elim (Bool-cases (bit 0x04 reg_b)) [
  | inl binary ↦ rw binary refl
  | inr bcd ↦ rw bcd (omega arith)
]

-- The registers of a clock that shows a time of the years from 2000 on.
unfoldable pub Shows : Array ℕ → Time → Type 0
Shows cmos t =
    (cmos 0x00 ≡ encode (cmos 0x0b) t.seconds)
    × (cmos 0x02 ≡ encode (cmos 0x0b) t.minutes)
    × (cmos 0x04 ≡ encode (cmos 0x0b) t.hours)
    × (cmos 0x07 ≡ encode (cmos 0x0b) t.day)
    × (cmos 0x08 ≡ encode (cmos 0x0b) t.month)
    × (cmos 0x09 ≡ encode (cmos 0x0b) (t.year - 2000))

abbrev pub IsShort : Time → Type 0
IsShort t =
    (t.seconds < 60)
    × (t.minutes < 60)
    × (t.hours < 24)
    × (t.day < 32)
    × (t.month < 13)
    × (2000 ≤ t.year)
    × (t.year < 2100)

-- From a clock in 24-hour mode that shows a time of the 21st century, `rtc_read_time` reads that
-- time, whether the bytes are binary or BCD.
pub rtc_read_time_lem :
    (cmos : Array ℕ) (t : Time)
    → IsShort t
    → bit 0x02 (cmos 0x0b) ≡ true
    → Shows cmos t
    → rtc_read_time cmos ≡ t
unfolding rtc_read_time decode_hours Shows
rtc_read_time_lem cmos t (s, m, h, d, mo, lo, hi) mode (es, em, eh, ed, emo, ey) = rw (
  mode,
  es,
  em,
  eh,
  ed,
  emo,
  ey,
  decode-encode (cmos 0x0b) t.seconds (omega arith),
  decode-encode (cmos 0x0b) t.minutes (omega arith),
  decode-encode (cmos 0x0b) t.hours (omega arith),
  decode-encode (cmos 0x0b) t.day (omega arith),
  decode-encode (cmos 0x0b) t.month (omega arith),
  decode-encode (cmos 0x0b) (t.year - 2000) (omega arith),
  year,
)
  where
    year : t.year - 2000 + 2000 ≡ t.year
    year = omega arith

-- In 12-hour mode, with bit 0x80 for PM, binary bytes give `(hour + 12) % 24` for PM, so 0 for noon,
-- and the hour itself for AM, so 12 for midnight. BCD bytes lose the PM bit in the conversion: 80 is
-- added to the hour.
pub decode_hours-twelve :
    (reg_b hour : ℕ)
    → 1 ≤ hour
    → hour ≤ 12
    → bit 0x02 reg_b ≡ false
    → (decode_hours reg_b (encode reg_b hour) ≡ hour)
      × (decode_hours reg_b (encode reg_b hour + 0x80)
          ≡ (if bit 0x04 reg_b then (hour + 12) % 24 else 80 + hour))
unfolding decode_hours decode encode bcd_to_binary
decode_hours-twelve reg_b hour lo hi mode = elim (Bool-cases (bit 0x04 reg_b)) [
  | inl binary ↦ rw (mode, binary) (ground arith, ground arith)
  | inr bcd ↦ rw (mode, bcd) (ground arith, ground arith)
]
