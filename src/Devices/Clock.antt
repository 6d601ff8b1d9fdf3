-- ===== src/Devices/Clock.antt =====
-- The clock: src/devices/rtc/rtc.c and the part of src/devices/pit/pit.c that keeps the time.
pub mod Laws
pub mod Calendar
pub mod Bcd
mod Tests
use frog_kernel.Base.{
  ℕ, zero, suc, ◌+◌, ◌-◌, ◌*◌, ◌/◌, ◌%◌, ◌^◌, Bool, true, false, not, ◌&&◌, ◌||◌, ltb, leb, ◌==◌,
  if◌then◌else◌, List, [], ◌∷◌, get_or,
}
use frog_kernel.Base.Store.{Array}

-- `rtc_time_t`: bytes, and a year of 16 bits.
pub record Time : Type 0 where
  pub seconds : ℕ
  pub minutes : ℕ
  pub hours : ℕ
  pub day : ℕ
  pub month : ℕ
  pub year : ℕ

unfoldable pub bcd_to_binary : ℕ → ℕ
bcd_to_binary bcd = (bcd / 16 * 10 + bcd % 16) % 256

abbrev pub bit : (mask x : ℕ) → Bool
bit mask x = x / mask % 2 == 1

-- The conversion of a byte of the clock, if register B (bit 0x04) says that they are BCD.
unfoldable pub decode : (reg_b byte : ℕ) → ℕ
decode reg_b byte = if bit 0x04 reg_b then byte else bcd_to_binary byte

-- The twelve-hour clock, register B's bit 0x02.
unfoldable pub decode_hours : (reg_b byte : ℕ) → ℕ
unfolding decode
decode_hours reg_b byte =
    let hours = decode reg_b byte in
    if not (bit 0x02 reg_b) && bit 0x80 hours then (hours % 0x80 + 12) % 24 else hours

-- `rtc_read_time` on the registers of the CMOS, once the update in progress is over.
unfoldable pub rtc_read_time : Array ℕ → Time
unfolding decode_hours
rtc_read_time cmos =
    let reg_b = cmos 0x0b in
    record {
      seconds = decode reg_b (cmos 0x00);
      minutes = decode reg_b (cmos 0x02);
      hours = decode_hours reg_b (cmos 0x04);
      day = decode reg_b (cmos 0x07);
      month = decode reg_b (cmos 0x08);
      year = decode reg_b (cmos 0x09) + 2000;
    }

abbrev pub days_in_month : List ℕ
days_in_month = 0 ∷ 31 ∷ 28 ∷ 31 ∷ 30 ∷ 31 ∷ 30 ∷ 31 ∷ 31 ∷ 30 ∷ 31 ∷ 30 ∷ 31 ∷ []

unfoldable pub leap_year : ℕ → Bool
leap_year year = (year % 4 == 0 && not (year % 100 == 0)) || year % 400 == 0

-- Past the table of thirteen bytes C reads what follows it; here that is 0.
unfoldable pub get_days_in_month : (month year : ℕ) → ℕ
unfolding leap_year
get_days_in_month month year =
    if month == 2 && leap_year year then 29 else get_or days_in_month month 0

abbrev pub pit_hz : ℕ
pit_hz = 1000

-- The carries of `pit_callback`, each a statement of its own, in order.
unfoldable pub carry_seconds : Time → Time
carry_seconds t =
    if leb 60 t.seconds then record t { minutes = (t.minutes + 1) % 256; seconds = 0 } else t

unfoldable pub carry_minutes : Time → Time
carry_minutes t =
    if leb 60 t.minutes then record t { hours = (t.hours + 1) % 256; minutes = 0 } else t

unfoldable pub carry_hours : Time → Time
carry_hours t = if leb 24 t.hours then record t { day = (t.day + 1) % 256; hours = 0 } else t

unfoldable pub carry_month : Time → Time
carry_month t = if ltb 12 t.month then record t { year = (t.year + 1) % 2 ^ 16; month = 1 } else t

unfoldable pub carry_day : Time → Time
carry_day t =
    if ltb (get_days_in_month t.month t.year) t.day
    then carry_month (record t { month = (t.month + 1) % 256; day = 1 })
    else t

-- `ticks` and `curr_time`, with what `pit_callback` asks of the rest of the kernel.
pub record Pit : Type 0 where
  pub ticks : ℕ
  pub curr_time : Time
  pub cursor_toggles : ℕ
  pub swaps : ℕ
  pub schedule_pending : Bool

unfoldable pub count_second : (ticks : ℕ) → Time → Time
count_second ticks t =
    if ticks % pit_hz == 0 then record t { seconds = (t.seconds + 1) % 256 } else t

unfoldable pub advance_time : (ticks : ℕ) → Time → Time
unfolding count_second carry_seconds carry_minutes carry_hours carry_day carry_month
advance_time ticks t =
    carry_day (carry_hours (carry_minutes (carry_seconds (count_second ticks t))))

-- `console_toggle_cursor` and `fb_swap` are counted. `running`: `curr_thread` is not NULL.
unfoldable pub pit_callback : (running : Bool) → Pit → Pit
unfolding advance_time
pit_callback running p =
    let ticks = (p.ticks + 1) % 2 ^ 32 in
    record {
      ticks = ticks;
      curr_time = advance_time ticks p.curr_time;
      cursor_toggles = if ticks % 500 == 0 then p.cursor_toggles + 1 else p.cursor_toggles;
      swaps = if ticks % 16 == 0 then p.swaps + 1 else p.swaps;
      schedule_pending = if running && ticks % 10 == 0 then true else p.schedule_pending;
    }
