-- ===== src/Schedule/Rounds/Examples.antt =====
-- A weekly test on Sundays at noon that is shut out once, and the theorem at it.
use seasonal_weather.Prelude.{
  ℕ, ◌+◌, ◌*◌, ◌≡◌, refl, true, false, none, List, [], ◌∷◌, codes, pos, strip, lstrip, lower, upper,
  text_eq, is_space, is_upper,
}
use seasonal_weather.Schedule.{day, days_before_year, next_weekly, next_monthly_nth_weekday}
use seasonal_weather.Schedule.Postpone.{
  PostponeSettings, PostponeSchedule, Attempt, fired, attempt_with_postpone,
}
use seasonal_weather.Schedule.Rounds.{
  EventCode, rwt, rmt, RwtRmtSchedule, TestState, Round, RoundOutcome, already_ran, attempted,
  run_round, run_rounds, period_key, weekly_period_key, monthly_period_key, iso_year, iso_week,
  thursday_of, year_of, two_digits,
}
use seasonal_weather.Schedule.Rounds.Once.{
  completed_periods, Increasing, completed_periods-Increasing, is_in_order, IsLast,
}

abbrev settings : PostponeSettings
settings = record {
  postpone_policy = codes "next_day";
  postpone_minutes = pos 15;
  max_postpone_hours = pos 6;
  max_postpone_days = pos 2;
}

abbrev sundays : RwtRmtSchedule
sundays = record {
  rwt_enabled = true;
  rwt_weekday = 6;
  rwt_hour = 12;
  rwt_minute = 0;
  rmt_enabled = false;
  rmt_nth = 1;
  rmt_weekday = 2;
  rmt_hour = 12;
  rmt_minute = 0;
  postpone = record { rwt = settings; rmt = settings };
}

abbrev round_at : ℕ → List Attempt → ℕ → Round
round_at now seen completed_at = record {
  now = now;
  rwt_jitter = 0;
  rmt_jitter = 0;
  seen = seen;
  completed_at = completed_at;
}

-- shut on Sunday the 29th, open on Monday
abbrev first_round : Round
first_round =
    round_at (739703 * 86400000000)
      (record { late = 0; is_open = false } ∷ record { late = 0; is_open = true } ∷ [])
      (739705 * 86400000000 + 43260000000)

abbrev second_round : Round
second_round =
    round_at (739705 * 86400000000 + 46800000000) (record { late = 0; is_open = true } ∷ [])
      (739711 * 86400000000 + 43260000000)

abbrev no_tests : TestState
no_tests = record { last_rwt_period = []; last_rmt_period = [] }

completed_periods-Increasing_example :
    Increasing none (completed_periods rwt sundays (first_round ∷ second_round ∷ []) no_tests)
unfolding IsLast is_in_order seasonal_weather.Schedule.Rounds.next_event
    seasonal_weather.Schedule.Rounds.pick seasonal_weather.Schedule.Rounds.rwt_due
    seasonal_weather.Schedule.Rounds.rmt_due next_weekly
completed_periods-Increasing_example =
    completed_periods-Increasing rwt sundays (first_round ∷ second_round ∷ []) no_tests none 0 tt
      refl

-- The test of Sunday, done on Monday, is remembered for the week of Monday, and the test of that week is left out.
next_test_is_left_out :
    (run_rounds sundays (first_round ∷ second_round ∷ []) no_tests).0
    ≡ attempted rwt
        (739704 * 86400000000 + 43200000000)
        (fired (739705 * 86400000000 + 43200000000) (739705 * 86400000000 + 43200000000))
      ∷ already_ran rwt (739711 * 86400000000 + 43200000000)
      ∷ []
unfolding run_rounds run_round seasonal_weather.Schedule.Rounds.next_event
    seasonal_weather.Schedule.Rounds.pick seasonal_weather.Schedule.Rounds.rwt_due
    seasonal_weather.Schedule.Rounds.rmt_due next_weekly text_eq
    seasonal_weather.Schedule.Rounds.last_period period_key weekly_period_key iso_year iso_week
    thursday_of year_of seasonal_weather.Schedule.Rounds.year_from two_digits
    seasonal_weather.Tracker.decimal days_before_year seasonal_weather.Schedule.Rounds.completed
    seasonal_weather.Schedule.Rounds.remember_period seasonal_weather.Schedule.Rounds.code_text
    attempt_with_postpone seasonal_weather.Schedule.Postpone.attempts
    seasonal_weather.Schedule.Postpone.next_postpone_attempt
    seasonal_weather.Schedule.Postpone.postpone_policy_for
    seasonal_weather.Schedule.Postpone.postpone_minutes_for
    seasonal_weather.Schedule.Postpone.max_postpone_hours_for
    seasonal_weather.Schedule.Postpone.max_postpone_days_for
    seasonal_weather.Schedule.Postpone.is_rwt seasonal_weather.Schedule.Postpone.settings_for
    seasonal_weather.Schedule.Postpone.normalize_postpone_policy
    seasonal_weather.Schedule.Postpone.policy_named seasonal_weather.Schedule.Postpone.policy_key
    strip lstrip lower upper is_space is_upper
next_test_is_left_out = refl

-- Sunday, January the 1st of 2023 lies in the last ISO week of 2022, and in January
new_year_keys :
    (weekly_period_key (738521 * 86400000000) ≡ codes "2022-W52")
    × (monthly_period_key (738521 * 86400000000) ≡ codes "2023-01")
unfolding weekly_period_key seasonal_weather.Tracker.decimal iso_year year_of
    seasonal_weather.Schedule.Rounds.year_from days_before_year thursday_of two_digits iso_week
    monthly_period_key seasonal_weather.Schedule.Rounds.month_of
    seasonal_weather.Schedule.Rounds.month_from seasonal_weather.Schedule.to_ordinal
    seasonal_weather.Schedule.days_before_month seasonal_weather.Schedule.is_leap
new_year_keys = (refl, refl)
