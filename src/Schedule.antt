-- ===== src/Schedule.antt =====
-- seasonalweather/broadcast/rwt_rmt.py and broadcast/tests.py: when the required tests are due, and how a test
-- that is blocked is put off. A time is a count of microseconds of local wall time, from the day before
-- 0001-01-01, so that its day is the ordinal of `datetime.date`.
pub mod Weekly
pub mod Monthly
pub mod Postpone
pub mod Rounds
mod Examples
use seasonal_weather.Prelude.{
  ℕ, zero, suc, ◌+◌, ◌-◌, ◌*◌, ◌/◌, ◌%◌, ◌≤◌, ◌<◌, Bool, true, false, not, ◌&&◌, ◌||◌, Option, none,
  some, List, [], ◌∷◌, if◌then◌else◌, ltb, leb, ◌==◌, Text, codes, text_eq, text_in, strip, lower,
  map, max,
}

abbrev pub day : ℕ
day = 86400000000

abbrev pub hour : ℕ
hour = 3600000000

abbrev pub minute : ℕ
minute = 60000000

-- Monday is 0
abbrev pub weekday_of : ℕ → ℕ
weekday_of ordinal = (ordinal + 6) % 7

-- `now.replace(hour=h, minute=m, second=0, microsecond=0)`
abbrev pub time_on : ℕ → ℕ → ℕ → ℕ
time_on ordinal h m = ordinal * day + (h * hour + m * minute)

pub next_weekly : ℕ → ℕ → ℕ → ℕ → ℕ
next_weekly now weekday h m =
    let base = time_on (now / day) h m in
    let days_ahead = (weekday + 7 - weekday_of (base / day)) % 7 in
    if days_ahead == 0 && leb base now then base + 7 * day else base + days_ahead * day

-- the ordinals of `datetime.date`
pub is_leap : ℕ → Bool
is_leap y = y % 4 == 0 && (not (y % 100 == 0) || y % 400 == 0)

pub days_before_year : ℕ → ℕ
days_before_year y = (y - 1) * 365 + (y - 1) / 4 - (y - 1) / 100 + (y - 1) / 400

-- of a year that is no leap year
pub days_before_month : ℕ → ℕ
days_before_month m = if leb m 2 then 31 * (m - 1) else (153 * m - 457) / 5 + 59

pub to_ordinal : ℕ → ℕ → ℕ → ℕ
to_ordinal y m d =
    days_before_year y + days_before_month m + (if leb 3 m && is_leap y then 1 else 0) + d

pub days_in_month : ℕ → ℕ → ℕ
days_in_month y m =
    if m == 12
    then to_ordinal (suc y) 1 1 - to_ordinal y m 1
    else to_ordinal y (suc m) 1 - to_ordinal y m 1

-- the day of the month
pub nth_weekday_of_month : ℕ → ℕ → ℕ → ℕ → Option ℕ
nth_weekday_of_month y m nth weekday =
    if ltb nth 1 || ltb 5 nth
    then none
    else (let delta = (weekday + 7 - weekday_of (to_ordinal y m 1)) % 7 in
        let d = 1 + delta + (nth - 1) * 7 in if ltb (days_in_month y m) d then none else some d)

-- the candidates of the months from one on
pub monthly_from : ℕ → ℕ → ℕ → ℕ → ℕ → ℕ → ℕ → ℕ → ℕ
monthly_from zero now y m nth weekday h mi = now + 30 * day
monthly_from (suc tries) now y m nth weekday h mi =
    let later =
      if m == 12
      then monthly_from tries now (suc y) 1 nth weekday h mi
      else monthly_from tries now y (suc m) nth weekday h mi in
    elim (nth_weekday_of_month y m nth weekday) [
      | none ↦ later
      | some d ↦
          (let candidate = time_on (to_ordinal y m d) h mi in
            if ltb now candidate then candidate else later)
    ]

-- a time with its year and month
pub next_monthly_nth_weekday : ℕ → ℕ → ℕ → ℕ → ℕ → ℕ → ℕ → ℕ
next_monthly_nth_weekday now y m nth weekday h mi = monthly_from 15 now y m nth weekday h mi
