-- ===== src/Schedule/Rounds.antt =====
-- broadcast/rwt_rmt.py: the rounds of `run_forever` and what is remembered of the tests that ran. Years have
-- four digits at most, as those of `datetime`; the state file is the state itself, and a stop ends the list of rounds.
pub mod Periods
pub mod Once
mod Examples
use seasonal_weather.Prelude.{
  ℕ, zero, suc, ◌+◌, ◌-◌, ◌*◌, ◌/◌, ◌%◌, ltb, ◌++◌, ◌≤◌, Bool, true, false, Option, none, some,
  List, [], ◌∷◌, if◌then◌else◌, leb, Text, codes, text_eq,
}
use seasonal_weather.Tracker.{decimal}
use seasonal_weather.Schedule.{
  day, days_before_year, to_ordinal, next_weekly, next_monthly_nth_weekday,
}
use seasonal_weather.Schedule.Postpone.{
  PostponeSchedule, Attempt, AttemptOutcome, fired, skipped, waiting, attempt_with_postpone,
}

pub data EventCode : Type 0 where
  rwt : EventCode
  rmt : EventCode

pub code_text : EventCode → Text
code_text rwt = codes "RWT"
code_text rmt = codes "RMT"

pub record RwtRmtSchedule : Type 0 where
  pub rwt_enabled : Bool
  pub rwt_weekday : ℕ
  pub rwt_hour : ℕ
  pub rwt_minute : ℕ
  pub rmt_enabled : Bool
  pub rmt_nth : ℕ
  pub rmt_weekday : ℕ
  pub rmt_hour : ℕ
  pub rmt_minute : ℕ
  pub postpone : PostponeSchedule

pub record TestState : Type 0 where
  pub last_rwt_period : Text
  pub last_rmt_period : Text

-- what a round meets: its start, the two jitters, the attempts, and the end of the test
pub record Round : Type 0 where
  pub now : ℕ
  pub rwt_jitter : ℕ
  pub rmt_jitter : ℕ
  pub seen : List Attempt
  pub completed_at : ℕ

-- a number below 100, `:02d`
pub two_digits : ℕ → Text
two_digits n = (b'0' + n / 10) ∷ (b'0' + n % 10) ∷ []

-- the last year up to a bound that begins before the end of the day
pub year_from : ℕ → ℕ → ℕ
year_from zero ordinal = 0
year_from (suc y) ordinal = elim (ltb (days_before_year (suc y)) ordinal) [
  | true ↦ suc y
  | false ↦ year_from y ordinal
]

-- `date.year`
pub year_of : ℕ → ℕ
year_of ordinal = year_from (suc (ordinal / 365)) ordinal

-- the last month of the year that begins by the day
pub month_from : ℕ → ℕ → ℕ → ℕ
month_from zero y ordinal = 1
month_from (suc m) y ordinal = elim (leb (to_ordinal y (suc (suc m)) 1) ordinal) [
  | true ↦ suc (suc m)
  | false ↦ month_from m y ordinal
]

-- `date.month`
pub month_of : ℕ → ℕ
month_of ordinal = month_from 11 (year_of ordinal) ordinal

-- the Thursday of the week, which runs from Monday to Sunday
pub thursday_of : ℕ → ℕ
thursday_of ordinal = 7 * ((ordinal + 6) / 7) - 3

-- `isocalendar()`: the year of the Thursday, and its place among the Thursdays of that year
pub iso_year : ℕ → ℕ
iso_year ordinal = year_of (thursday_of ordinal)

pub iso_week : ℕ → ℕ
iso_week ordinal = suc ((thursday_of ordinal - days_before_year (iso_year ordinal) - 1) / 7)

pub weekly_period_key : ℕ → Text
weekly_period_key t =
    decimal 4 (iso_year (t / day)) ++ (codes "-W" ++ two_digits (iso_week (t / day)))

pub monthly_period_key : ℕ → Text
monthly_period_key t =
    decimal 4 (year_of (t / day)) ++ (codes "-" ++ two_digits (month_of (t / day)))

pub rwt_due : RwtRmtSchedule → Round → Option ℕ
rwt_due s r =
    if s.rwt_enabled
    then some (next_weekly r.now s.rwt_weekday s.rwt_hour s.rwt_minute + r.rwt_jitter)
    else none

pub rmt_due : RwtRmtSchedule → Round → Option ℕ
rmt_due s r =
    if s.rmt_enabled
    then some (
        next_monthly_nth_weekday r.now (year_of (r.now / day)) (month_of (r.now / day)) s.rmt_nth
          s.rmt_weekday s.rmt_hour s.rmt_minute
        + r.rmt_jitter)
    else none

-- `min(next_events, key=...)`
pub pick : Option ℕ → Option ℕ → Option (EventCode × ℕ)
pick none none = none
pick (some w) none = some (rwt, w)
pick none (some m) = some (rmt, m)
pick (some w) (some m) = if leb m w then some (rmt, m) else some (rwt, w)

pub next_event : RwtRmtSchedule → Round → Option (EventCode × ℕ)
next_event s r = pick (rwt_due s r) (rmt_due s r)

pub data RoundOutcome : Type 0 where
  nothing_enabled : RoundOutcome
  already_ran : EventCode → ℕ → RoundOutcome
  attempted : EventCode → ℕ → AttemptOutcome → RoundOutcome

pub last_period : EventCode → TestState → Text
last_period rwt t = t.last_rwt_period
last_period rmt t = t.last_rmt_period

pub remember_period : EventCode → Text → TestState → TestState
remember_period rwt period t = record t { last_rwt_period = period }
remember_period rmt period t = record t { last_rmt_period = period }

pub period_key : EventCode → ℕ → Text
period_key rwt t = weekly_period_key t
period_key rmt t = monthly_period_key t

-- the end of `_attempt_with_postpone`: the period is that of the time when the test is over
pub completed : EventCode → ℕ → AttemptOutcome → TestState → TestState
completed code completed_at (fired at now) t = remember_period code (period_key code completed_at) t
completed code completed_at (skipped at now) t = t
completed code completed_at (waiting at) t = t

pub run_round : RwtRmtSchedule → Round → TestState → RoundOutcome × TestState
run_round s r t = elim (next_event s r) [
  | none ↦ (nothing_enabled, t)
  | some (code, due) ↦
      if text_eq (last_period code t) (period_key code due)
      then (already_ran code due, t)
      else (let outcome = attempt_with_postpone (code_text code) s.postpone due r.seen in
          (attempted code due outcome, completed code r.completed_at outcome t))
]

pub run_rounds : RwtRmtSchedule → List Round → TestState → List RoundOutcome × TestState
run_rounds s [] t = ([], t)
run_rounds s (r ∷ rounds) t =
    let (outcome, t') = run_round s r t in
    let (outcomes, last) = run_rounds s rounds t' in (outcome ∷ outcomes, last)
