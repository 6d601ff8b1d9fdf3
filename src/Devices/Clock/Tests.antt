-- ===== src/Devices/Clock/Tests.antt =====
-- The last second of a leap year's February and of a year, and the clock's bytes at that time.
use frog_kernel.Base.{◌+◌, ◌%◌, ◌^◌, ◌≡◌, true, false, refl, arith, if◌then◌else◌, ◌==◌}
use frog_kernel.Devices.Clock.{
  Time, Pit, leap_year, get_days_in_month, pit_hz, carry_seconds, carry_minutes, carry_hours,
  carry_day, carry_month, count_second, advance_time, pit_callback,
}
use frog_kernel.Devices.Clock.Laws.{pit_callback_lem}
use frog_kernel.Devices.Clock.Calendar.{IsTime, instant}

abbrev silvester : Time
silvester = record { seconds = 59; minutes = 59; hours = 23; day = 31; month = 12; year = 2024 }

abbrev due : Pit
due = record {
  ticks = 59999;
  curr_time = silvester;
  cursor_toggles = 0;
  swaps = 0;
  schedule_pending = false;
}

new_year_day :
    (pit_callback true due).curr_time
    ≡ record { seconds = 0; minutes = 0; hours = 0; day = 1; month = 1; year = 2025 }
unfolding pit_callback advance_time count_second carry_seconds carry_minutes carry_hours carry_day
    carry_month get_days_in_month leap_year
new_year_day = refl

silvester-IsTime : IsTime silvester
unfolding get_days_in_month leap_year
silvester-IsTime = record {
  seconds = omega arith;
  minutes = omega arith;
  hours = omega arith;
  day = omega arith;
  last = omega arith;
  month = omega arith;
  december = omega arith;
}

pit_callback_lem_example :
    IsTime (pit_callback true due).curr_time
    × (instant (pit_callback true due).curr_time
        ≡ instant due.curr_time + (if (due.ticks + 1) % 2 ^ 32 % pit_hz == 0 then 1 else 0))
pit_callback_lem_example = pit_callback_lem true due silvester-IsTime (omega arith)
