-- ===== src/Same/Duration.antt =====
-- The duration field TTTT.
use seasonal_weather.Prelude.{
  ℕ, ◌+◌, ◌-◌, ◌*◌, ◌%◌, ◌≤◌, ◌<◌, ◌≡◌, [], ◌∷◌, arith, ℤ, at_least, Text, two_digits,
}
use seasonal_weather.Same.{round_up_to_15_minutes, format_tttt}

-- the minutes that a text HHMM stands for
abbrev pub minutes_of : Text → ℕ
minutes_of (a ∷ b ∷ c ∷ d ∷ []) =
    ((a - b'0') * 10 + (b - b'0')) * 60 + ((c - b'0') * 10 + (d - b'0'))
minutes_of _ = 0

-- Up to 99 hours and 45 minutes, TTTT is the least multiple of 15 minutes that covers the duration.
pub format_tttt_covers :
    (duration : ℤ)
    → at_least 0 duration ≤ 5985
    → (at_least 0 duration ≤ minutes_of (format_tttt duration))
      × (minutes_of (format_tttt duration) < at_least 0 duration + 15)
      × (minutes_of (format_tttt duration) % 15 ≡ 0)
unfolding format_tttt round_up_to_15_minutes two_digits
format_tttt_covers duration h = (ground arith, ground arith, ground arith)
