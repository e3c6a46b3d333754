-- ===== src/Same/Fields.antt =====
-- The fields that the encoder writes have the shape that the decoder's pattern wants.
use seasonal_weather.Prelude.{
  ℕ, ◌-◌, ◌≤◌, ◌<◌, ◌≡◌, ◌≢◌, refl, Bool, true, some, List, [], ◌∷◌, ◌++◌, arith, if◌then◌else◌,
  length, length-append, length-take, length-replicate, take, replicate, keep, nonempty, All,
  All-append, All-take, All-replicate, All-keep, Text, codes, is_digit, strip, upper, ℤ, two_digits,
  Option-cases, Bool-cases, inl, inr, leb, leb→le,
}
use mathlib.Core.Path.{subst}
use seasonal_weather.Same.{
  is_code_char, normalize_three_char_code, zfill, normalize_same_location, clamp_sender,
  is_sender_char, default_sender, format_tttt, known_locations, header_locations, UtcTime,
  days_before_month, is_leap, julian_day, three_digits, issue_stamp,
}

-- `n` characters of a class
abbrev pub Class : (ℕ → Bool) → ℕ → Text → Type 0
Class p n s = (length s ≡ n) × All (λ c. p c ≡ true) s

-- a list of six-digit locations
abbrev pub SixDigits : List Text → Type 0
SixDigits = All (Class is_digit 6)

pub normalize_three_char_code-Class :
    (value fallback : Text)
    → Class is_code_char 3 fallback
    → Class is_code_char 3 (normalize_three_char_code value fallback)
unfolding normalize_three_char_code
normalize_three_char_code-Class value fallback (len, h) =
    ground (arith, All-keep is_code_char (upper (strip value)))

pub normalize_same_location-Class :
    (value : Text) {loc : Text} → normalize_same_location value ≡ some loc → Class is_digit 6 loc
unfolding normalize_same_location
normalize_same_location-Class value {loc} e =
    let digits = keep is_digit (strip value) in
    let padded = zfill 6 digits in
    let whole : take 6 padded ≡ loc = ground arith in
    subst (Class is_digit 6) whole (
      length-take 6 padded (six digits),
      All-take _ 6 padded (padding digits (All-keep is_digit (strip value))),
    )
  where
    six : (digits : Text) → 6 ≤ length (zfill 6 digits)
    six digits =
        unfold zfill in
        omega (
          arith,
          length-append {0} (replicate (6 - length digits) b'0') digits,
          length-replicate {0} {A = ℕ} (6 - length digits) b'0',
        )

    padding :
        (digits : Text)
        → All (λ c. is_digit c ≡ true) digits
        → All (λ c. is_digit c ≡ true) (zfill 6 digits)
    padding digits h =
        unfold zfill is_digit in
        All-append _ (replicate (6 - length digits) b'0') digits
          (All-replicate _ (6 - length digits) b'0' refl) h

known_locations-SixDigits : (xs : List Text) → SixDigits (known_locations xs)
unfolding known_locations
known_locations-SixDigits [] = tt
known_locations-SixDigits (x ∷ xs) = elim (Option-cases (normalize_same_location x)) [
  | inl bad ↦ rw (bad, known_locations) (known_locations-SixDigits xs)
  | inr (loc, ok) ↦
      rw (ok, known_locations) (normalize_same_location-Class x ok, known_locations-SixDigits xs)
]

zeros : Class is_digit 6 (codes "000000")
unfolding is_digit
zeros = (refl, (refl, (refl, (refl, (refl, (refl, (refl, tt)))))))

pub header_locations-SixDigits :
    (xs : List Text) → (header_locations xs ≢ []) × SixDigits (header_locations xs)
unfolding header_locations is_digit
header_locations-SixDigits xs = elim (Bool-cases (nonempty (known_locations xs))) [
  | inl full ↦ rw full ((λ e. ground arith), known_locations-SixDigits xs)
  | inr empty ↦ rw empty ((λ e. cc), (zeros, tt))
]

two_digits-Class : (n : ℕ) → n < 100 → Class is_digit 2 (two_digits n)
unfolding two_digits is_digit
two_digits-Class n h = ground arith

pub format_tttt-Class : (duration : ℤ) → Class is_digit 4 (format_tttt duration)
unfolding format_tttt two_digits is_digit
format_tttt-Class duration = ground arith

-- what every `datetime` satisfies
pub record IsTime (t : UtcTime) : Type 0 where
  pub month : t.month ≤ 12
  pub day : t.day ≤ 31
  pub hour : t.hour < 24
  pub minute : t.minute < 60

julian_day_bound : (t : UtcTime) → IsTime t → julian_day t ≤ 366
unfolding julian_day days_before_month is_leap
julian_day_bound t h = ground arith

pub issue_stamp-Class : (t : UtcTime) → IsTime t → Class is_digit 7 (issue_stamp t)
unfolding issue_stamp three_digits two_digits is_digit
issue_stamp-Class t h = ground (arith, julian_day_bound t h)

fit_eight :
    (t : Text) → length (if leb 8 (length t) then take 8 t else take 8 (t ++ replicate 8 b' ')) ≡ 8
fit_eight t = elim (Bool-cases (leb 8 (length t))) [
  | inl long ↦ rw long (length-take 8 t (leb→le 8 (length t) long))
  | inr short ↦ rw short (
      length-take 8 (t ++ replicate 8 b' ') (omega (arith, length-append {0} t (replicate 8 b' '))))
]

pub length-clamp_sender : (sender : Text) → length (clamp_sender sender) ≡ 8
unfolding clamp_sender
length-clamp_sender sender = fit_eight (
    keep is_sender_char
      (if nonempty (upper (strip sender)) then upper (strip sender) else default_sender))
