-- ===== src/Schedule/Weekly.antt =====
-- The weekly test is due at the next time that its rule names.
use seasonal_weather.Prelude.{
  ℕ, ◌+◌, ◌-◌, ◌*◌, ◌/◌, ◌%◌, ◌≤◌, ◌<◌, ◌≡◌, refl, ap, sym, ◌∙◌, arith, if◌then◌else◌, leb, ◌==◌,
  ◌&&◌, inl, inr, Bool-cases,
}
use seasonal_weather.Schedule.{day, hour, minute, weekday_of, time_on, next_weekly}

-- a day of the week and a time of the day
pub record IsWeekly (weekday h m t : ℕ) : Type 0 where
  pub on_weekday : weekday_of (t / day) ≡ weekday
  pub at_time : t % day ≡ h * hour + m * minute

-- the number of days to add
days_to : ℕ → ℕ → ℕ
days_to ordinal weekday = (weekday + 7 - weekday_of ordinal) % 7

time_on_day : (o h m : ℕ) → h < 24 → m < 60 → time_on o h m / day ≡ o
time_on_day o h m a b = omega arith

time_on_time : (o h m : ℕ) → h < 24 → m < 60 → time_on o h m % day ≡ h * hour + m * minute
time_on_time o h m a b = omega arith

added_days : (t n : ℕ) → (t + n * day) / day ≡ t / day + n
added_days t n = omega arith

added_time : (t n : ℕ) → (t + n * day) % day ≡ t % day
added_time t n = omega arith

weekday_after : (o w : ℕ) → w < 7 → weekday_of (o + days_to o w) ≡ w
unfolding days_to
weekday_after o w h = omega arith

ahead : ℕ → ℕ → ℕ → ℕ → ℕ
ahead now weekday h m =
    let n = days_to (now / day) weekday in
    if n == 0 && leb (time_on (now / day) h m) now then 7 else n

next_weekly-ahead :
    (now weekday h m : ℕ)
    → h < 24
    → m < 60
    → next_weekly now weekday h m ≡ time_on (now / day + ahead now weekday h m) h m
unfolding next_weekly ahead days_to
next_weekly-ahead now weekday h m hh mm =
    rw (next_weekly, time_on_day (now / day) h m hh mm) (go _ refl)
  where
    go :
        (n : ℕ)
        → (weekday + 7 - weekday_of (now / day)) % 7 ≡ n
        → (if n == 0 && leb (time_on (now / day) h m) now
            then time_on (now / day) h m + 7 * day
            else time_on (now / day) h m + n * day)
          ≡ time_on (now / day + (if n == 0 && leb (time_on (now / day) h m) now then 7 else n)) h m
    go n e = elim (Bool-cases (n == 0 && leb (time_on (now / day) h m) now)) [
      | inl passed ↦ rw passed (omega arith)
      | inr other ↦ rw other (omega arith)
    ]

ahead-on_weekday :
    (now weekday h m : ℕ) → weekday < 7 → weekday_of (now / day + ahead now weekday h m) ≡ weekday
unfolding ahead
ahead-on_weekday now weekday h m w =
    elim (Bool-cases (days_to (now / day) weekday == 0 && leb (time_on (now / day) h m) now)) [
      | inl passed ↦
          rw (passed, ahead) (ground (arith, passed, weekday_after (now / day) weekday w))
      | inr other ↦ rw (other, ahead) (weekday_after (now / day) weekday w)
    ]

ahead-after :
    (now weekday h m : ℕ)
    → h < 24
    → m < 60
    → (now < time_on (now / day + ahead now weekday h m) h m)
      × (time_on (now / day + ahead now weekday h m) h m ≤ now + 7 * day)
unfolding ahead days_to
ahead-after now weekday h m hh mm =
    elim (Bool-cases (days_to (now / day) weekday == 0 && leb (time_on (now / day) h m) now)) [
      | inl passed ↦ rw (passed, ahead) (ground (arith, passed))
      | inr other ↦ rw (other, ahead) (ground (arith, other))
    ]

first_time :
    (t u : ℕ)
    → weekday_of (t / day) ≡ weekday_of (u / day)
    → t % day ≡ u % day
    → u < t + 7 * day
    → u ≤ t
first_time t u a b c = omega arith

-- The next weekly test is after now, falls on the weekday of the schedule at its hour and minute, and is the
-- first such time after now; the weekday, hour and minute are in their ranges.
pub next_weekly-IsWeekly :
    (now weekday h m t : ℕ)
    → weekday < 7
    → h < 24
    → m < 60
    → IsWeekly weekday h m t
    → now < t
    → IsWeekly weekday h m (next_weekly now weekday h m)
      × (now < next_weekly now weekday h m)
      × (next_weekly now weekday h m ≤ t)
next_weekly-IsWeekly now weekday h m t w hh mm weekly later =
    let e = next_weekly-ahead now weekday h m hh mm in
    let o = now / day + ahead now weekday h m in
    let (after, within) = ahead-after now weekday h m hh mm in
    let same_day : weekday_of (next_weekly now weekday h m / day) ≡ weekday =
      ap (λ n. weekday_of (n / day)) e
      ∙ (ap weekday_of (time_on_day o h m hh mm) ∙ ahead-on_weekday now weekday h m w) in
    let same_time : next_weekly now weekday h m % day ≡ h * hour + m * minute =
      ap (λ n. n % day) e ∙ time_on_time o h m hh mm in
    (
      record { on_weekday = same_day; at_time = same_time },
      omega (arith, e, after),
      first_time t (next_weekly now weekday h m) (weekly.on_weekday ∙ sym same_day)
          (weekly.at_time ∙ sym same_time) (omega (arith, e, within)),
    )
