-- ===== src/Schedule/Monthly.antt =====
-- The monthly test and the calendar it goes by.
use mathlib.Core.Path.{subst}
use seasonal_weather.Prelude.{
  ℕ, suc, ◌+◌, ◌-◌, ◌*◌, ◌%◌, ◌≤◌, ◌<◌, ◌≡◌, refl, ◌∙◌, arith, Bool, true, ◌||◌, if◌then◌else◌, ltb,
  ◌==◌, inl, inr, Bool-cases, some, ◌⊎◌,
}
use seasonal_weather.Schedule.{
  day, weekday_of, time_on, is_leap, days_before_year, days_before_month, to_ordinal, days_in_month,
  nth_weekday_of_month, monthly_from, next_monthly_nth_weekday,
}

-- the calendar's table
pub month_length : Bool → ℕ → ℕ
month_length leap m =
    if m == 2
    then (if leap then 29 else 28)
    else if m == 4 || (m == 6 || (m == 9 || m == 11))
    then 30
    else 31

year_days :
    (y : ℕ)
    → 1 ≤ y
    → days_before_year (suc y) ≡ days_before_year y + (if is_leap y then 366 else 365)
unfolding days_before_year is_leap
year_days y h = ground arith

month_days :
    (y m : ℕ)
    → 1 ≤ m
    → m < 12
    → to_ordinal y (suc m) 1 ≡ to_ordinal y m 1 + month_length (is_leap y) m
unfolding to_ordinal days_before_month month_length
month_days y m a b = ground arith

december_days : (y : ℕ) → 1 ≤ y → to_ordinal (suc y) 1 1 ≡ to_ordinal y 12 1 + 31
unfolding to_ordinal days_before_month
december_days y h = ground (arith, year_days y h)

last_days : (y m : ℕ) → 1 ≤ y → (m == 12) ≡ true → to_ordinal (suc y) 1 1 ≡ to_ordinal y m 1 + 31
last_days y m h december =
    subst (λ k. to_ordinal (suc y) 1 1 ≡ to_ordinal y k 1 + 31) {x = 12} {y = m}
      (ground (arith, december)) (december_days y h)

days_in_month-month_length :
    (y m : ℕ) → 1 ≤ y → 1 ≤ m → m ≤ 12 → days_in_month y m ≡ month_length (is_leap y) m
unfolding days_in_month month_length
days_in_month-month_length y m hy a b = elim (Bool-cases (m == 12)) [
  | inl december ↦
      rw (december, days_in_month) (ground (arith, december, last_days y m hy december))
  | inr other ↦ rw (other, days_in_month) (ground (arith, month_days y m, other))
]

-- at least four weeks, and no more than 31 days
month_weeks : (y m : ℕ) → 1 ≤ y → 1 ≤ m → m ≤ 12 → 28 ≤ days_in_month y m
unfolding month_length
month_weeks y m hy a b = ground (arith, days_in_month-month_length y m hy a b)

abbrev first_delta : ℕ → ℕ → ℕ → ℕ
first_delta y m weekday = (weekday + 7 - weekday_of (to_ordinal y m 1)) % 7

to_ordinal_day : (y m d : ℕ) → 1 ≤ d → to_ordinal y m d ≡ to_ordinal y m 1 + (d - 1)
unfolding to_ordinal
to_ordinal_day y m d h = omega arith

-- the n-th such day of a month
pub record IsNthWeekday (y m nth weekday d : ℕ) : Type 0 where
  pub on_weekday : weekday_of (to_ordinal y m d) ≡ weekday
  pub after_weeks : 7 * (nth - 1) < d
  pub before_week : d ≤ 7 * nth
  pub in_month : d ≤ days_in_month y m

found_day :
    (y m nth weekday d : ℕ)
    → nth_weekday_of_month y m nth weekday ≡ some d
    → (1 ≤ nth) × (d ≡ 1 + first_delta y m weekday + (nth - 1) * 7) × (d ≤ days_in_month y m)
unfolding nth_weekday_of_month
found_day y m nth weekday d e = ground (arith, e)

-- The day that is found is the n-th of its weekday in the month: it falls on the weekday, and it stands in the
-- n-th week of days; it is a day of the month.
pub nth_weekday_of_month-IsNthWeekday :
    (y m nth weekday d : ℕ)
    → weekday < 7
    → nth_weekday_of_month y m nth weekday ≡ some d
    → IsNthWeekday y m nth weekday d
nth_weekday_of_month-IsNthWeekday y m nth weekday d w e =
    let (low, is_day, there) = found_day y m nth weekday d e in
    record {
      on_weekday = omega (arith, to_ordinal_day y m d, is_day);
      after_weeks = omega (arith, is_day);
      before_week = omega (arith, is_day, low);
      in_month = there;
    }

-- the first four are there in every month
first_four :
    (y m nth weekday : ℕ)
    → 1 ≤ y
    → 1 ≤ m
    → m ≤ 12
    → 1 ≤ nth
    → nth ≤ 4
    → (d : ℕ) × (nth_weekday_of_month y m nth weekday ≡ some d)
unfolding nth_weekday_of_month
first_four y m nth weekday hy a b c e =
    (1 + first_delta y m weekday + (nth - 1) * 7, ground (arith, month_weeks y m hy a b))

-- a time with its year and month
pub record IsIn (y m now : ℕ) : Type 0 where
  pub year : 1 ≤ y
  pub month : (1 ≤ m) × (m ≤ 12)
  pub before_next : now < (to_ordinal y m 1 + days_in_month y m) * day

abbrev pub next_year : ℕ → ℕ → ℕ
next_year y m = if m == 12 then suc y else y

abbrev pub next_month : ℕ → ℕ
next_month m = if m == 12 then 1 else suc m

month_start :
    (y m : ℕ)
    → 1 ≤ y
    → 1 ≤ m
    → m ≤ 12
    → to_ordinal (next_year y m) (next_month m) 1 ≡ to_ordinal y m 1 + days_in_month y m
unfolding days_in_month month_length
month_start y m hy a b = elim (Bool-cases (m == 12)) [
  | inl december ↦ rw december (ground (arith, last_days y m hy december))
  | inr other ↦ rw other (ground (arith, month_days y m a, other))
]

-- what a month offers after a time
monthly_step :
    (tries now y m nth weekday h mi d : ℕ)
    → nth_weekday_of_month y m nth weekday ≡ some d
    → monthly_from (suc tries) now y m nth weekday h mi ≡ (
        if ltb now (time_on (to_ordinal y m d) h mi)
        then time_on (to_ordinal y m d) h mi
        else monthly_from tries now (next_year y m) (next_month m) nth weekday h mi)
unfolding monthly_from
monthly_step tries now y m nth weekday h mi d e = elim (Bool-cases (m == 12)) [
  | inl december ↦ rw (e, monthly_from, december) refl
  | inr other ↦ rw (e, monthly_from, other) refl
]

-- a time that the rule names
pub record IsMonthly (y m nth weekday h mi t : ℕ) : Type 0 where
  pub date : ℕ
  pub is_nth : IsNthWeekday y m nth weekday date
  pub at_time : t ≡ time_on (to_ordinal y m date) h mi

first_day : (y m nth weekday d : ℕ) → nth_weekday_of_month y m nth weekday ≡ some d → 1 ≤ d
first_day y m nth weekday d e =
    let (low, is_day, there) = found_day y m nth weekday d e in omega (arith, is_day)

lt-ltb : (a b : ℕ) → a < b → ltb a b ≡ true
lt-ltb a b h = ground arith

next_is_later :
    (now y m d h mi : ℕ)
    → IsIn y m now
    → 1 ≤ d
    → now < time_on (to_ordinal (next_year y m) (next_month m) d) h mi
next_is_later now y m d h mi i low = omega (
  arith,
  i.before_next,
  month_start y m i.year i.month.0 i.month.1,
  to_ordinal_day (next_year y m) (next_month m) d low,
)

-- The next monthly test is after now, and it is the n-th weekday of this month or of the next one, at its hour
-- and minute. The rule names a first to fourth weekday, and now comes before the end of its month.
pub next_monthly_nth_weekday-IsMonthly :
    (now y m nth weekday h mi : ℕ)
    → IsIn y m now
    → 1 ≤ nth
    → nth ≤ 4
    → weekday < 7
    → (now < next_monthly_nth_weekday now y m nth weekday h mi)
      × (IsMonthly y m nth weekday h mi (next_monthly_nth_weekday now y m nth weekday h mi)
          ⊎ IsMonthly
              (next_year y m)
              (next_month m)
              nth
              weekday
              h
              mi
              (next_monthly_nth_weekday now y m nth weekday h mi))
unfolding next_monthly_nth_weekday
next_monthly_nth_weekday-IsMonthly now y m nth weekday h mi i low high w =
    let (d, here) = first_four y m nth weekday i.year i.month.0 i.month.1 low high in
    let (d', there) =
      first_four (next_year y m) (next_month m) nth weekday (ground (arith, i.year))
        (ground (arith, i.month)) (ground (arith, i.month)) low high in
    elim (Bool-cases (ltb now (time_on (to_ordinal y m d) h mi))) [
      | inl to_come ↦
          let e : next_monthly_nth_weekday now y m nth weekday h mi
              ≡ time_on (to_ordinal y m d) h mi =
            monthly_step 14 now y m nth weekday h mi d here ∙ rw to_come refl in
          (
            ground (arith, e, to_come),
            inl (record {
              date = d;
              is_nth = nth_weekday_of_month-IsNthWeekday y m nth weekday d w here;
              at_time = e;
            }),
          )
      | inr passed ↦
          let later : now < time_on (to_ordinal (next_year y m) (next_month m) d') h mi =
            next_is_later now y m d' h mi i
              (first_day (next_year y m) (next_month m) nth weekday d' there) in
          let e : next_monthly_nth_weekday now y m nth weekday h mi
              ≡ time_on (to_ordinal (next_year y m) (next_month m) d') h mi =
            monthly_step 14 now y m nth weekday h mi d here
            ∙ (rw passed refl
                ∙ (monthly_step 13 now (next_year y m) (next_month m) nth weekday h mi d' there
                    ∙ rw (lt-ltb now _ later) refl)) in
          (
            omega (arith, e, later),
            inr (record {
              date = d';
              is_nth =
                  nth_weekday_of_month-IsNthWeekday (next_year y m) (next_month m) nth weekday d' w
                    there;
              at_time = e;
            }),
          )
    ]
