-- ===== src/Schedule/Rounds/Periods.antt =====
-- The weeks and months of times: each is told by its key, and later times have no earlier ones.
use seasonal_weather.Prelude.{
  ℕ, zero, suc, ◌+◌, ◌-◌, ◌*◌, ◌/◌, ◌≤◌, ◌≡◌, ap, ◌∙◌, arith, ◌++◌, codes,
}
use seasonal_weather.Tracker.{decimal}
use seasonal_weather.Schedule.{day, days_before_year}
use seasonal_weather.Schedule.Rounds.{
  EventCode, rwt, rmt, two_digits, year_from, year_of, month_from, month_of, thursday_of, iso_year,
  iso_week, weekly_period_key, monthly_period_key, period_key,
}

-- the weeks and the months, counted
unfoldable pub period : EventCode → ℕ → ℕ
period rwt t = (t / day + 6) / 7
period rmt t = 12 * year_of (t / day) + month_of (t / day)

-- a year that begins after the day is passed over
year_from_later :
    (y ordinal : ℕ) → ordinal ≤ 365 * y → year_from (suc y) ordinal ≡ year_from y ordinal
unfolding year_from days_before_year
year_from_later y ordinal h = ground arith

-- the bound of the search is no matter
year_from_more : (k ordinal : ℕ) → year_from (k + suc (ordinal / 365)) ordinal ≡ year_of ordinal
unfolding year_of
year_from_more zero ordinal =
    ap (λ b. year_from b ordinal) {x = zero + suc (ordinal / 365)} {y = suc (ordinal / 365)}
      (omega arith)
year_from_more (suc k) ordinal =
    ap (λ b. year_from b ordinal) {x = suc k + suc (ordinal / 365)}
      {y = suc (k + suc (ordinal / 365))} (omega arith)
    ∙ (year_from_later (k + suc (ordinal / 365)) ordinal (omega arith) ∙ year_from_more k ordinal)

year_from_mono : (y m n : ℕ) → m ≤ n → year_from y m ≤ year_from y n
unfolding year_from
year_from_mono zero m n h = omega arith
year_from_mono (suc y) m n h = ground (arith, year_from_mono y m n h, year_from_le y m)
  where
    year_from_le : (y m : ℕ) → year_from y m ≤ y
    year_from_le zero m = omega arith
    year_from_le (suc y) m = ground (arith, year_from_le y m)

year_of_mono : (m n : ℕ) → m ≤ n → year_of m ≤ year_of n
year_of_mono m n h =
    let k = n / 365 - m / 365 in
    omega (
      arith,
      year_from_mono (k + suc (m / 365)) m n h,
      year_from_more k m,
      ap (λ b. year_from b n) {x = k + suc (m / 365)} {y = zero + suc (n / 365)} (omega arith),
      year_from_more zero n,
    )

month_from_bounds : (k y n : ℕ) → (1 ≤ month_from k y n) × (month_from k y n ≤ suc k)
unfolding month_from
month_from_bounds zero y n = (omega arith, omega arith)
month_from_bounds (suc k) y n =
    ground (arith, (month_from_bounds k y n).0, (month_from_bounds k y n).1)

month_from_mono : (k y m n : ℕ) → m ≤ n → month_from k y m ≤ month_from k y n
unfolding month_from
month_from_mono zero y m n h = omega arith
month_from_mono (suc k) y m n h =
    ground (arith, month_from_mono k y m n h, (month_from_bounds k y m).1)

month_of_bounds : (n : ℕ) → (1 ≤ month_of n) × (month_of n ≤ 12)
unfolding month_of
month_of_bounds n = month_from_bounds 11 (year_of n) n

month_of_mono : (m n : ℕ) → m ≤ n → year_of m ≡ year_of n → month_of m ≤ month_of n
unfolding month_of
month_of_mono m n h same =
    omega (arith, month_from_mono 11 (year_of m) m n h, ap (λ y. month_from 11 y n) same)

pub period_key_told :
    (code : EventCode) (t u : ℕ)
    → period code t ≡ period code u
    → period_key code t ≡ period_key code u
unfolding period_key weekly_period_key monthly_period_key iso_year iso_week thursday_of period
period_key_told rwt t u e =
    ap
      (λ week.
        decimal 4 (year_of (7 * week - 3))
        ++ (codes "-W"
            ++ two_digits
                (suc ((7 * week - 3 - days_before_year (year_of (7 * week - 3)) - 1) / 7))))
      e
period_key_told rmt t u e =
    let (low, high) = month_of_bounds (t / day) in
    let (low', high') = month_of_bounds (u / day) in
    ap (λ y. decimal 4 y ++ (codes "-" ++ two_digits (month_of (t / day)))) {x = year_of (t / day)}
      {y = year_of (u / day)} (omega (arith, e, low, high, low', high'))
    ∙ ap (λ m. decimal 4 (year_of (u / day)) ++ (codes "-" ++ two_digits m))
        {x = month_of (t / day)} {y = month_of (u / day)} (omega (arith, e, low, high, low', high'))

pub period_mono : (code : EventCode) (t u : ℕ) → t ≤ u → period code t ≤ period code u
unfolding period
period_mono rwt t u h = omega arith
period_mono rmt t u h =
    let before : t / day ≤ u / day = omega arith in
    ground (
      arith,
      (month_of_bounds (t / day)).1,
      (month_of_bounds (u / day)).0,
      year_of_mono (t / day) (u / day) before,
      month_of_mono (t / day) (u / day) before,
    )
