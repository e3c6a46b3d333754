-- ===== src/Schedule/Examples.antt =====
-- Wednesday, 25 March 2026, ten in the morning, and the theorems at it.
use seasonal_weather.Prelude.{ℕ, ◌+◌, ◌*◌, ◌≤◌, ◌<◌, ◌≡◌, ◌⊎◌, refl, arith, none, some}
use seasonal_weather.Schedule.{
  to_ordinal, next_weekly, nth_weekday_of_month, next_monthly_nth_weekday, days_before_year,
  days_before_month, is_leap, days_in_month,
}
use seasonal_weather.Schedule.Weekly.{IsWeekly, next_weekly-IsWeekly}
use seasonal_weather.Schedule.Monthly.{
  IsNthWeekday, IsMonthly, IsIn, next_year, next_month, nth_weekday_of_month-IsNthWeekday,
  next_monthly_nth_weekday-IsMonthly,
}

abbrev now : ℕ
now = 739700 * 86400000000 + 36000000000

-- the ordinal of 25 March 2026
today : to_ordinal 2026 3 25 ≡ 739700
unfolding to_ordinal days_before_year days_before_month is_leap
today = refl

abbrev next_wednesday : ℕ
next_wednesday = 739707 * 86400000000 + 32400000000

next_wednesday-IsWeekly : IsWeekly 2 9 0 next_wednesday
next_wednesday-IsWeekly = record { on_weekday = refl; at_time = refl }

-- nine o'clock has passed
next_weekly-IsWeekly_example :
    IsWeekly 2 9 0 (next_weekly now 2 9 0)
    × (now < next_weekly now 2 9 0)
    × (next_weekly now 2 9 0 ≤ next_wednesday)
next_weekly-IsWeekly_example =
    next_weekly-IsWeekly now 2 9 0 next_wednesday (omega arith) (omega arith) (omega arith)
      next_wednesday-IsWeekly (omega arith)

third_wednesday : nth_weekday_of_month 2026 3 3 2 ≡ some 18
unfolding nth_weekday_of_month to_ordinal days_before_year days_before_month is_leap days_in_month
third_wednesday = refl

no_fifth_wednesday : nth_weekday_of_month 2026 3 5 2 ≡ none
unfolding nth_weekday_of_month to_ordinal days_before_year days_before_month is_leap days_in_month
no_fifth_wednesday = refl

nth_weekday_of_month-IsNthWeekday_example : IsNthWeekday 2026 3 3 2 18
nth_weekday_of_month-IsNthWeekday_example =
    nth_weekday_of_month-IsNthWeekday 2026 3 3 2 18 (omega arith) third_wednesday

now-IsIn : IsIn 2026 3 now
unfolding to_ordinal days_before_year days_before_month is_leap days_in_month
now-IsIn = record {
  year = omega arith;
  month = (omega arith, omega arith);
  before_next = omega arith;
}

next_monthly_nth_weekday-IsMonthly_example :
    (now < next_monthly_nth_weekday now 2026 3 3 2 9 0)
    × (IsMonthly 2026 3 3 2 9 0 (next_monthly_nth_weekday now 2026 3 3 2 9 0)
        ⊎ IsMonthly
            (next_year 2026 3)
            (next_month 3)
            3
            2
            9
            0
            (next_monthly_nth_weekday now 2026 3 3 2 9 0))
next_monthly_nth_weekday-IsMonthly_example =
    next_monthly_nth_weekday-IsMonthly now 2026 3 3 2 9 0 now-IsIn (omega arith) (omega arith)
      (omega arith)
