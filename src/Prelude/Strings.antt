-- ===== src/Prelude/Strings.antt =====
-- Python's `str` as a list of code points. `strip` knows every Unicode space; `upper`, `lower` and
-- `isdigit` know the ASCII letters and digits and leave all other characters alone.
use Prim.Native.Nat.{ℕ, ◌+◌, ◌-◌, ◌/◌, ◌%◌}
use Prim.Native.Char.{code}
use Prim.Native.String.{String}
use mathlib.Core.Path.{◌≡◌, refl, ap}
use mathlib.Core.Logic.{◌↔◌}
use mathlib.Core.Bool.{Bool, true, false, ◌&&◌, ◌||◌}
use mathlib.Core.List.{List, [], ◌∷◌, ◌++◌, map, reverse, reverse-cons, reverse-reverse}
use seasonal_weather.Prelude.Lists.{All, All-append, any}
use native.Mathlib.Omega.{arith}
use seasonal_weather.Prelude.Tests.{leb, ltb, ◌==◌, if◌then◌else◌, and-eq-true, ==_iff}

abbrev pub Text : Type 0
Text = List ℕ

abbrev pub codes : String → Text
codes String.[] = []
codes (String.◌∷◌ c s) = code c ∷ codes s

unfoldable pub text_eq : Text → Text → Bool
text_eq [] [] = true
text_eq [] (b ∷ t) = false
text_eq (a ∷ s) [] = false
text_eq (a ∷ s) (b ∷ t) = a == b && text_eq s t

pub text_eq_iff : (s t : Text) → (text_eq s t ≡ true) ↔ (s ≡ t)
unfolding text_eq
text_eq_iff [] [] = (λ _. refl, λ _. refl)
text_eq_iff [] (b ∷ t) = (λ h. cc, λ h. cc)
text_eq_iff (a ∷ s) [] = (λ h. cc, λ h. cc)
text_eq_iff (a ∷ s) (b ∷ t) = ground (arith, text_eq_iff s t)

pub text_eq_refl : (s : Text) → text_eq s s ≡ true
text_eq_refl s = (text_eq_iff s s).1 refl

-- `s < t` on strings: by code points, a prefix first
unfoldable pub text_le : Text → Text → Bool
text_le [] t = true
text_le (a ∷ s) [] = false
text_le (a ∷ s) (b ∷ t) = ltb a b || (a == b && text_le s t)

-- `s in (t1, t2, …)`
unfoldable pub text_in : Text → List Text → Bool
unfolding text_eq
text_in s [] = false
text_in s (t ∷ ts) = text_eq t s || text_in s ts

abbrev between : ℕ → ℕ → ℕ → Bool
between lo hi c = leb lo c && leb c hi

-- `str.isspace` of one character
unfoldable pub is_space : ℕ → Bool
is_space c =
    between 9 13 c
    || between 28 32 c
    || c == 0x85
    || c == 0xa0
    || c == 0x1680
    || between 0x2000 0x200a c
    || c == 0x2028
    || c == 0x2029
    || c == 0x202f
    || c == 0x205f
    || c == 0x3000

unfoldable pub is_digit : ℕ → Bool
is_digit c = between b'0' b'9' c

unfoldable pub is_upper : ℕ → Bool
is_upper c = between b'A' b'Z' c

unfoldable pub lstrip : Text → Text
unfolding is_space
lstrip [] = []
lstrip (c ∷ s) = let rest = lstrip s in if is_space c then rest else c ∷ s

unfoldable pub strip : Text → Text
unfolding lstrip
strip s = reverse (lstrip (reverse (lstrip s)))

upper_char : ℕ → ℕ
upper_char c = if between b'a' b'z' c then c - 32 else c

lower_char : ℕ → ℕ
lower_char c = if between b'A' b'Z' c then c + 32 else c

unfoldable pub upper : Text → Text
unfolding upper_char
upper s = map upper_char s

unfoldable pub lower : Text → Text
unfolding lower_char
lower s = map lower_char s

-- two decimal digits, `f"{n:02d}"` for a number below 100
unfoldable pub two_digits : ℕ → Text
two_digits n = (b'0' + n / 10) ∷ (b'0' + n % 10) ∷ []

-- `needle in text`
starts : Text → Text → Bool
starts [] t = true
starts (a ∷ s) [] = false
starts (a ∷ s) (b ∷ t) = a == b && starts s t

unfoldable pub has_sub : Text → Text → Bool
unfolding starts
has_sub needle [] = starts needle []
has_sub needle (c ∷ t) = starts needle (c ∷ t) || has_sub needle t

unfoldable pub starts_with : Text → Text → Bool
unfolding starts
starts_with t needle = starts needle t

abbrev pub IsDigits : Text → Type 0
IsDigits = All (λ c. is_digit c ≡ true)

digit-is_space : (c : ℕ) → is_digit c ≡ true → is_space c ≡ false
unfolding is_digit is_space
digit-is_space c h = ground arith

lstrip_digits : (s : Text) → IsDigits s → lstrip s ≡ s
unfolding lstrip
lstrip_digits [] h = refl
lstrip_digits (c ∷ s) (hc, h) = rw (digit-is_space c hc)

IsDigits-reverse : (s : Text) → IsDigits s → IsDigits (reverse s)
IsDigits-reverse [] h = tt
IsDigits-reverse (c ∷ s) (hc, h) =
    rw (reverse-cons c s)
      (All-append (λ c. is_digit c ≡ true) (reverse s) (c ∷ []) (IsDigits-reverse s h) (hc, tt))

-- a text of digits has nothing to strip
pub strip_digits : (s : Text) → IsDigits s → strip s ≡ s
unfolding strip
strip_digits s h =
    rw (lstrip_digits s h, lstrip_digits (reverse s) (IsDigits-reverse s h)) (reverse-reverse s)

pub text_in-any : (s : Text) (ts : List Text) → text_in s ts ≡ any (λ t. text_eq t s) ts
unfolding text_in
text_in-any s [] = refl
text_in-any s (t ∷ ts) = ap (λ b. text_eq t s || b) (text_in-any s ts)

pub text_le_total : (s t : Text) → text_le s t ≡ false → text_le t s ≡ true
unfolding text_le
text_le_total [] t h = cc
text_le_total (a ∷ s) [] h = refl
text_le_total (a ∷ s) (b ∷ t) h = ground (arith, text_le_total s t)

-- no text stands twice
abbrev pub Distinct : List Text → Type 0
Distinct [] = Unit
Distinct (t ∷ ts) = (text_in t ts ≡ false) × Distinct ts

starts-split : (needle t : Text) → starts needle t ≡ true → (rest : Text) × (t ≡ needle ++ rest)
unfolding starts
starts-split [] t h = (t, refl)
starts-split (a ∷ s) [] h = cc
starts-split (a ∷ s) (b ∷ t) h =
    let (same, there) = and-eq-true (a == b) (starts s t) h in
    let (rest, e) = starts-split s t there in (rest, ground (arith, e, same, ==_iff a b))

-- a text that starts with another is that text and a rest
pub starts_with-split :
    (t needle : Text) → starts_with t needle ≡ true → (rest : Text) × (t ≡ needle ++ rest)
unfolding starts_with
starts_with-split t needle h = starts-split needle t h
