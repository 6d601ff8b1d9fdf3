-- ===== src/Devices/Clock/Laws.antt =====
-- The clock of src/devices/rtc/rtc.c and src/devices/pit/pit.c against the calendar.
use frog_kernel.Base.{
  ℕ, ◌+◌, ◌%◌, ◌^◌, ◌<◌, ◌≡◌, Bool, if◌then◌else◌, ◌==◌, leb, arith, refl, ◌∙◌, Bool-cases, inl,
  inr,
}
use frog_kernel.Devices.Clock.{
  Time, Pit, pit_hz, carry_seconds, carry_minutes, carry_hours, count_second, advance_time,
  pit_callback,
}
use frog_kernel.Devices.Clock.Calendar.{IsTime, instant, month_length, IsDue, carry_day-instant}

-- The carries below the day, each on what the one before may leave.
carry_hours-instant :
    (t : Time)
    → t.hours < 25
    → IsTime (record t { hours = 0 })
    → IsDue (carry_hours t) × (instant (carry_hours t) ≡ instant t)
unfolding carry_hours instant
carry_hours-instant t h v = elim (Bool-cases (leb 24 t.hours)) [
  | inl over ↦ rw over (
    record {
      seconds = v.seconds;
      minutes = v.minutes;
      hours = omega arith;
      day = ground (arith, month_length t.month t.year v.month v.december);
      last = ground (arith, month_length t.month t.year v.month v.december);
      month = v.month;
      december = v.december;
    },
    ground (arith, month_length t.month t.year v.month v.december),
  )
  | inr within ↦ rw within (
    record {
      seconds = v.seconds;
      minutes = v.minutes;
      hours = ground arith;
      day = v.day;
      last = ground arith;
      month = v.month;
      december = v.december;
    },
    refl,
  )
]

carry_minutes-instant :
    (t : Time)
    → t.minutes < 61
    → IsTime (record t { minutes = 0 })
    → (IsTime (record (carry_minutes t) { hours = 0 }) × ((carry_minutes t).hours < 25))
      × (instant (carry_minutes t) ≡ instant t)
unfolding carry_minutes instant
carry_minutes-instant t h v = elim (Bool-cases (leb 60 t.minutes)) [
  | inl over ↦ rw over (
    (
      record {
        seconds = v.seconds;
        minutes = omega arith;
        hours = omega arith;
        day = v.day;
        last = v.last;
        month = v.month;
        december = v.december;
      },
      omega (arith, v.hours),
    ),
    ground (arith, v.hours),
  )
  | inr within ↦ rw within (
    (
      record {
        seconds = v.seconds;
        minutes = ground arith;
        hours = omega arith;
        day = v.day;
        last = v.last;
        month = v.month;
        december = v.december;
      },
      omega (arith, v.hours),
    ),
    refl,
  )
]

carry_seconds-instant :
    (t : Time)
    → t.seconds < 61
    → IsTime (record t { seconds = 0 })
    → (IsTime (record (carry_seconds t) { minutes = 0 }) × ((carry_seconds t).minutes < 61))
      × (instant (carry_seconds t) ≡ instant t)
unfolding carry_seconds instant
carry_seconds-instant t h v = elim (Bool-cases (leb 60 t.seconds)) [
  | inl over ↦ rw over (
    (
      record {
        seconds = omega arith;
        minutes = omega arith;
        hours = v.hours;
        day = v.day;
        last = v.last;
        month = v.month;
        december = v.december;
      },
      omega (arith, v.minutes),
    ),
    ground (arith, v.minutes),
  )
  | inr within ↦ rw within (
    (
      record {
        seconds = ground arith;
        minutes = omega arith;
        hours = v.hours;
        day = v.day;
        last = v.last;
        month = v.month;
        december = v.december;
      },
      omega (arith, v.minutes),
    ),
    refl,
  )
]

count_second-instant :
    (ticks : ℕ) (t : Time)
    → IsTime t
    → (IsTime (record (count_second ticks t) { seconds = 0 })
        × ((count_second ticks t).seconds < 61))
      × (instant (count_second ticks t) ≡ instant t + (if ticks % pit_hz == 0 then 1 else 0))
unfolding count_second instant
count_second-instant ticks t v = elim (Bool-cases (ticks % pit_hz == 0)) [
  | inl due ↦ rw due (
    (
      record {
        seconds = omega arith;
        minutes = v.minutes;
        hours = v.hours;
        day = v.day;
        last = v.last;
        month = v.month;
        december = v.december;
      },
      omega (arith, v.seconds),
    ),
    omega (arith, v.seconds),
  )
  | inr not_due ↦ rw not_due (
    (
      record {
        seconds = omega arith;
        minutes = v.minutes;
        hours = v.hours;
        day = v.day;
        last = v.last;
        month = v.month;
        december = v.december;
      },
      omega (arith, v.seconds),
    ),
    omega arith,
  )
]

year_kept :
    (ticks : ℕ) (t : Time)
    → (carry_hours (carry_minutes (carry_seconds (count_second ticks t)))).year ≡ t.year
unfolding carry_hours carry_minutes carry_seconds count_second
year_kept ticks t = ground arith

-- Before the last year that 16 bits hold, `pit_callback` takes a time of the calendar to a time of
-- the calendar. It is one second later if the new tick is a multiple of 1000, and the same instant
-- if not, through the ends of minutes, hours, days, months and leap years.
pub pit_callback_lem :
    (running : Bool) (p : Pit)
    → IsTime p.curr_time
    → p.curr_time.year + 1 < 2 ^ 16
    → IsTime (pit_callback running p).curr_time
      × (instant (pit_callback running p).curr_time
          ≡ instant p.curr_time + (if (p.ticks + 1) % 2 ^ 32 % pit_hz == 0 then 1 else 0))
unfolding pit_callback advance_time
pit_callback_lem running p v y =
    let ticks = (p.ticks + 1) % 2 ^ 32 in
    let t0 = count_second ticks p.curr_time in
    let (a, ea) = count_second-instant ticks p.curr_time v in
    let (b, eb) = carry_seconds-instant t0 a.1 a.0 in
    let (c, ec) = carry_minutes-instant (carry_seconds t0) b.1 b.0 in
    let (d, ed) = carry_hours-instant (carry_minutes (carry_seconds t0)) c.1 c.0 in
    let (e, ee) =
      carry_day-instant (carry_hours (carry_minutes (carry_seconds t0)))
        (rw (year_kept ticks p.curr_time) y) d in
    (e, ee ∙ ed ∙ ec ∙ eb ∙ ea)
