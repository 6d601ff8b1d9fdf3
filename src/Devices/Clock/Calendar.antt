-- ===== src/Devices/Clock/Calendar.antt =====
-- The calendar, and the end of a day in src/devices/pit/pit.c against it.
use frog_kernel.Base.{
  ℕ, zero, suc, ◌+◌, ◌-◌, ◌*◌, ◌%◌, ◌^◌, ◌≤◌, ◌<◌, ◌≡◌, true, if◌then◌else◌, ◌==◌, ltb, arith, refl,
  ap, get_or, Bool-cases, inl, inr, ◌&&◌, ◌||◌,
}
use frog_kernel.Base.Store.{rows_pass, row-rows_pass}
use frog_kernel.Devices.Clock.{
  Time, leap_year, get_days_in_month, days_in_month, carry_day, carry_month,
}

-- A time of day on a day of the calendar, in a year that has a next one in 16 bits.
pub record IsTime (t : Time) : Type 0 where
  pub seconds : t.seconds < 60
  pub minutes : t.minutes < 60
  pub hours : t.hours < 24
  pub day : 1 ≤ t.day
  pub last : t.day ≤ get_days_in_month t.month t.year
  pub month : 1 ≤ t.month
  pub december : t.month ≤ 12

-- The days of the years before a year, and of the first months of a year.
unfoldable pub year_days : ℕ → ℕ
year_days zero = 0
year_days (suc y) = year_days y + (if leap_year y then 366 else 365)

unfoldable pub month_days : (months year : ℕ) → ℕ
month_days zero year = 0
month_days (suc m) year = month_days m year + get_days_in_month (suc m) year

-- The seconds from the start of year 0 to a time.
unfoldable pub instant : Time → ℕ
instant t =
    ((year_days t.year + month_days (t.month - 1) t.year + (t.day - 1)) * 24 + t.hours) * 3600
    + t.minutes * 60
    + t.seconds

twelve_months : (y : ℕ) → month_days 12 y ≡ (if leap_year y then 366 else 365)
unfolding month_days get_days_in_month
twelve_months y = elim (Bool-cases (leap_year y)) [
  | inl leap ↦ rw leap refl
  | inr common ↦ rw common refl
]

month_days-step : (m y : ℕ) → 1 ≤ m → month_days m y ≡ month_days (m - 1) y + get_days_in_month m y
unfolding month_days
month_days-step zero y h = absurd (omega arith)
month_days-step (suc m) y h = rw (drop_one m) refl
  where
    drop_one : (k : ℕ) → suc k - 1 ≡ k
    drop_one k = omega arith

month_lengths :
    rows_pass 13
      (λ m. m == 0 || ltb 27 (get_or days_in_month m 0) && ltb (get_or days_in_month m 0) 32)
    ≡ true
unfolding rows_pass
month_lengths = refl

pub month_length :
    (m y : ℕ) → 1 ≤ m → m ≤ 12 → (27 < get_days_in_month m y) × (get_days_in_month m y < 32)
unfolding get_days_in_month
month_length m y h k = ground (
  arith,
  row-rows_pass 13
      (λ m. m == 0 || ltb 27 (get_or days_in_month m 0) && ltb (get_or days_in_month m 0) 32) m
      month_lengths,
)

month_days-zero : (y : ℕ) → month_days 0 y ≡ 0
unfolding month_days
month_days-zero y = refl

-- New Year's Day comes one day after the last of December.
new_year :
    (y m : ℕ)
    → y + 1 < 2 ^ 16
    → m ≡ 12
    → year_days ((y + 1) % 65536) ≡ year_days y + month_days (m - 1) y + get_days_in_month m y
unfolding year_days
new_year y m h e = rw (year, e) (omega (arith, twelve_months y, month_days-step 12 y (omega arith)))
  where
    year : (y + 1) % 65536 ≡ suc y
    year = omega arith

pub before : (m : ℕ) → m ≤ 12 → (m + 1) % 256 - 1 ≡ m
before m h = omega arith

-- A time in which the last day of the month may be passed by one.
pub record IsDue (t : Time) : Type 0 where
  pub seconds : t.seconds < 60
  pub minutes : t.minutes < 60
  pub hours : t.hours < 24
  pub day : 1 ≤ t.day
  pub last : t.day ≤ get_days_in_month t.month t.year + 1
  pub month : 1 ≤ t.month
  pub december : t.month ≤ 12

pub carry_day-instant :
    (t : Time)
    → t.year + 1 < 2 ^ 16
    → IsDue t
    → IsTime (carry_day t) × (instant (carry_day t) ≡ instant t)
unfolding carry_day carry_month instant year_days
carry_day-instant t y d = elim (Bool-cases (ltb (get_days_in_month t.month t.year) t.day)) [
  | inr within ↦ rw within (
    record {
      seconds = d.seconds;
      minutes = d.minutes;
      hours = d.hours;
      day = d.day;
      last = ground arith;
      month = d.month;
      december = d.december;
    },
    refl,
  )
  | inl over ↦ rw over (elim (Bool-cases (ltb 12 ((t.month + 1) % 256))) [
    | inl wrapped ↦ rw wrapped (
      record {
        seconds = d.seconds;
        minutes = d.minutes;
        hours = d.hours;
        day = omega arith;
        last = omega (arith, month_length 1 ((t.year + 1) % 65536) (omega arith) (omega arith));
        month = omega arith;
        december = omega arith;
      },
      ground
          (arith, new_year t.year t.month y (ground arith), month_days-zero ((t.year + 1) % 65536)),
    )
    | inr next ↦ rw next (
      record {
        seconds = d.seconds;
        minutes = d.minutes;
        hours = d.hours;
        day = omega arith;
        last =
            omega (arith, month_length ((t.month + 1) % 256) t.year (ground arith) (ground arith));
        month = ground arith;
        december = ground arith;
      },
      ground (
        arith,
        ap (λ m. month_days m t.year) (before t.month d.december),
        month_days-step t.month t.year d.month,
      ),
    )
  ])
]
