-- ===== src/Vtec.antt =====
-- seasonalweather/alerts/vtec.py: the VTEC lines of a product, parsed and without repetition.
pub mod Codes
pub mod Agreement
pub mod Toneout
use seasonal_weather.Prelude.{
  ℕ, zero, suc, Bool, true, false, not, ◌&&◌, ◌||◌, Option, none, some, List, [], ◌∷◌, ◌++◌, ◌==◌,
  if◌then◌else◌, take, drop, keep, Text, codes, text_in, is_space, is_upper, is_digit,
}
use seasonal_weather.Alert.{matches_at, is_alnum}

abbrev char : ℕ → ℕ → Bool
char a c = c == a

-- `_VTEC_RE` up to the start of the first time, a class for each character
pub vtec_head : List (ℕ → Bool)
vtec_head =
    char b'/'
    ∷ is_upper
    ∷ char b'.'
    ∷ is_upper
    ∷ is_upper
    ∷ is_upper
    ∷ char b'.'
    ∷ is_upper
    ∷ is_upper
    ∷ is_upper
    ∷ is_upper
    ∷ char b'.'
    ∷ is_alnum
    ∷ is_alnum
    ∷ char b'.'
    ∷ is_upper
    ∷ char b'.'
    ∷ is_digit
    ∷ is_digit
    ∷ is_digit
    ∷ is_digit
    ∷ char b'.'
    ∷ []

-- `T\d{4}Z`
pub clock_time : List (ℕ → Bool)
clock_time = char b'T' ∷ is_digit ∷ is_digit ∷ is_digit ∷ is_digit ∷ char b'Z' ∷ []

pub short_date : List (ℕ → Bool)
short_date = is_digit ∷ is_digit ∷ is_digit ∷ is_digit ∷ is_digit ∷ is_digit ∷ clock_time

-- `(?:\d{8}|\d{6})T\d{4}Z`: how long the time at the front is. A text that fits one of the two
-- alternatives does not fit the other.
pub time_length : Text → Option ℕ
time_length s =
    if matches_at (is_digit ∷ is_digit ∷ short_date) s
    then some 14
    else if matches_at short_date s
    then some 12
    else none

pub record ParsedVtec : Type 0 where
  pub kind : Text
  pub action : Text
  pub office : Text
  pub phenomena : Text
  pub significance : Text
  pub etn : Text
  pub start : Text
  pub end : Text
  pub raw : Text

-- the two times behind the head
pub read_times : Text → Option (Text × Text)
read_times s = elim (time_length s) [
  | none ↦ none
  | some n ↦ elim (time_length (drop (suc n) s)) [
    | none ↦ none
    | some k ↦
        if matches_at (char b'-' ∷ []) (drop n s)
          && matches_at (char b'/' ∷ []) (drop k (drop (suc n) s))
        then some (take n s, take k (drop (suc n) s))
        else none
  ]
]

-- the fields of a head lie at fixed places
pub head_fields : Text → Text → Text × Text → ParsedVtec
head_fields raw m (start, end) = record {
  kind = take 1 (drop 1 m);
  action = take 3 (drop 3 m);
  office = take 4 (drop 7 m);
  phenomena = take 2 (drop 12 m);
  significance = take 1 (drop 15 m);
  etn = take 4 (drop 17 m);
  start = start;
  end = end;
  raw = raw;
}

-- a match of the whole pattern at the front
pub match_vtec : Text → Text → Option ParsedVtec
match_vtec raw s = elim (read_times (drop 22 s)) [
  | none ↦ none
  | some times ↦ if matches_at vtec_head s then some (head_fields raw s times) else none
]

-- `_VTEC_RE.search`
pub search_parse : Text → Text → Option ParsedVtec
search_parse raw [] = none
search_parse raw (c ∷ s) =
    let later = search_parse raw s in
    elim (match_vtec raw (c ∷ s)) [ none ↦ later | some v ↦ some v ]

-- `"".join(raw.split())`
abbrev pub squeeze : Text → Text
squeeze raw = keep (λ c. not (is_space c)) raw

pub parse_vtec : Text → Option ParsedVtec
parse_vtec raw = search_parse raw (squeeze raw)

pub phen_sig : ParsedVtec → Text
phen_sig v = v.phenomena ++ (codes "." ++ v.significance)

pub track_id : ParsedVtec → Text
track_id v =
    v.office
    ++ (codes "." ++ (v.phenomena ++ (codes "." ++ (v.significance ++ (codes "." ++ v.etn)))))

-- the key that `parse_vtec_list` has seen
pub track_action : ParsedVtec → Text
track_action v = track_id v ++ (codes "|" ++ v.action)

pub parse_from : List Text → List Text → List ParsedVtec
parse_from seen [] = []
parse_from seen (raw ∷ rest) = elim (parse_vtec raw) [
  | none ↦ parse_from seen rest
  | some v ↦
      let later = parse_from (track_action v ∷ seen) rest in
      let without = parse_from seen rest in
      if text_in (track_action v) seen then without else v ∷ later
]

pub parse_vtec_list : List Text → List ParsedVtec
parse_vtec_list vtec_strings = parse_from [] vtec_strings
