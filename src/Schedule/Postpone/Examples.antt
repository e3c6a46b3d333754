-- ===== src/Schedule/Postpone/Examples.antt =====
-- Weekly tests that are shut out, and the theorems at them.
use seasonal_weather.Prelude.{
  ◌+◌, ◌*◌, ◌≡◌, refl, arith, false, [], ◌∷◌, Text, codes, pos, negsuc, strip, lower, upper,
  text_eq,
}
use seasonal_weather.Schedule.{hour}
use seasonal_weather.Schedule.Postpone.{
  PostponeSettings, PostponeSchedule, Attempt, attempt_with_postpone, postpone_policy_for,
  max_postpone_hours_for, max_postpone_days_for, settings_for, is_rwt, normalize_postpone_policy,
  policy_named, policy_key, next_day,
}
use seasonal_weather.Schedule.Postpone.Attempts.{
  is_waiting, InTime, last_attempt, most_attempts, attempt_with_postpone-is_waiting,
  attempt_with_postpone-InTime,
}

abbrev settings : Text → PostponeSettings
settings policy = record {
  postpone_policy = policy;
  postpone_minutes = negsuc 4;
  max_postpone_hours = pos 6;
  max_postpone_days = pos 2;
}

abbrev schedule : PostponeSchedule
schedule = record { rwt = settings (codes "Next-Day"); rmt = settings (codes "") }

abbrev shut : Attempt
shut = record { late = 7; is_open = false }

next_day_named : postpone_policy_for (codes "rwt") schedule ≡ next_day
unfolding postpone_policy_for is_rwt text_eq upper strip normalize_postpone_policy policy_named
    policy_key lower
next_day_named = refl

-- a weekly test that is shut out on its day and on the two days after
attempt_with_postpone-is_waiting_example :
    is_waiting (attempt_with_postpone (codes "rwt") schedule 739700 (shut ∷ shut ∷ shut ∷ []))
    ≡ false
unfolding most_attempts postpone_policy_for is_rwt text_eq upper strip normalize_postpone_policy
    policy_named policy_key lower max_postpone_days_for settings_for
attempt_with_postpone-is_waiting_example =
    attempt_with_postpone-is_waiting (codes "rwt") schedule 739700 (shut ∷ shut ∷ shut ∷ [])
      (omega arith)

attempt_with_postpone-InTime_example :
    InTime
      (last_attempt
        (postpone_policy_for (codes "rwt") schedule)
        739700
        (739700 + max_postpone_hours_for (codes "rwt") schedule * hour)
        (max_postpone_days_for (codes "rwt") schedule))
      (attempt_with_postpone (codes "rwt") schedule 739700 (shut ∷ shut ∷ []))
attempt_with_postpone-InTime_example =
    attempt_with_postpone-InTime (codes "rwt") schedule 739700 (shut ∷ shut ∷ [])
