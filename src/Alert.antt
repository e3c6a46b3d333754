-- ===== src/Alert.antt =====
-- seasonalweather/alerts/active.py: one active alert, its VTEC tracks, its expiry and its place in the
-- rotation. A clock is the number of microseconds since year 1 in UTC.
pub mod Order
use seasonal_weather.Prelude.{
  ℕ, zero, suc, ◌+◌, ◌*◌, min, Bool, true, false, not, ◌&&◌, ◌||◌, Option, none, some, List, [],
  ◌∷◌, ◌++◌, map, leb, ltb, ◌==◌, if◌then◌else◌, length, take, drop, keep, nonempty, is_some, Text,
  codes, text_eq, text_in, text_le, has_sub, strip, upper, lower, is_space, is_upper, is_digit,
}
use mathlib.Core.List.{reverse}

-- what `datetime.fromisoformat` returns: a local time, or an instant
pub data Stamp : Type 0 where
  naive : ℕ → Stamp
  aware : ℕ → Stamp

pub record ActiveAlert : Type 0 where
  pub id : Text
  pub source : Text
  pub event : Text
  pub code : Text
  pub vtec : List Text
  pub headline : Text
  pub script_text : Text
  pub audio_path : Option Text
  pub expires : Text
  pub issued : Text
  pub same_locs : List Text
  pub cycle_only : Bool
  pub watch_number : Option ℕ
  pub first_aired : Option Text
  pub last_aired : Option Text
  pub airing_count : ℕ

-- `a or b` on texts
unfoldable pub text_or : Text → Text → Text
text_or [] b = b
text_or (c ∷ a) b = c ∷ a

-- `a or b` where `a` may be none
pub option_or : Option Text → Text → Text
option_or none b = b
option_or (some a) b = text_or a b

-- 1970-01-01 in microseconds since 0001-01-01
abbrev pub epoch : ℕ
epoch = 719162 * 86400000000

-- `s.endswith("Z")`, and `s[:-1] + "+00:00"` then
pub utc_suffix : Text → Text
utc_suffix [] = []
utc_suffix (c ∷ []) = if c == b'Z' then codes "+00:00" else c ∷ []
utc_suffix (c ∷ d ∷ s) = c ∷ utc_suffix (d ∷ s)

-- `datetime.fromisoformat` is the parameter: none is its ValueError
module _ (fromisoformat : Text → Option Stamp) where
  -- `_parse_iso_dt`: a local time is taken as UTC
  pub parse_iso_dt : Text → ℕ
  parse_iso_dt value =
      let s = strip value in
      if nonempty s
      then elim (fromisoformat (utc_suffix s)) [
        | none ↦ epoch
        | some (naive t) ↦ t
        | some (aware t) ↦ t
      ]
      else epoch

  unfoldable pub expires_dt : ActiveAlert → Stamp
  expires_dt a =
      let s = strip a.expires in
      if nonempty s
      then elim (fromisoformat (utc_suffix s)) [ none ↦ aware epoch | some t ↦ t ]
      else aware epoch

  -- A comparison of an instant with a local time raises TypeError, which counts as not expired.
  pub is_expired : ℕ → ActiveAlert → Bool
  is_expired now a = elim (expires_dt a) [ naive t ↦ false | aware t ↦ leb t now ]

unfoldable pub is_alnum : ℕ → Bool
is_alnum c = is_upper c || is_digit c

-- `_VTEC_TRACK_RE`, a class for each character
unfoldable pub vtec_pattern : List (ℕ → Bool)
vtec_pattern =
    let dot : ℕ → Bool = λ c. c == b'.' in
    (λ c. c == b'/')
    ∷ is_upper
    ∷ dot
    ∷ is_upper
    ∷ is_upper
    ∷ is_upper
    ∷ dot
    ∷ is_upper
    ∷ is_upper
    ∷ is_upper
    ∷ is_upper
    ∷ dot
    ∷ is_alnum
    ∷ is_alnum
    ∷ dot
    ∷ is_upper
    ∷ dot
    ∷ is_digit
    ∷ is_digit
    ∷ is_digit
    ∷ is_digit
    ∷ dot
    ∷ []

unfoldable pub matches_at : List (ℕ → Bool) → Text → Bool
matches_at [] s = true
matches_at (p ∷ ps) [] = false
matches_at (p ∷ ps) (c ∷ s) = p c && matches_at ps s

-- the first place where the pattern matches, and the text from there
unfoldable pub search_vtec : Text → Option Text
search_vtec [] = none
search_vtec (c ∷ s) =
    let later = search_vtec s in if matches_at vtec_pattern (c ∷ s) then some (c ∷ s) else later

-- The groups OFFICE.PHEN.SIG.ETN lie side by side in the match, from its eighth character on.
unfoldable pub vtec_track_id : Text → Option Text
vtec_track_id vtec_str = elim (search_vtec (keep (λ c. not (is_space c)) vtec_str)) [
  | none ↦ none
  | some m ↦ some (take 14 (drop 7 m))
]

-- the loop of `ActiveAlert.vtec_track_ids`
unfoldable pub track_ids : List Text → List Text
track_ids [] = []
track_ids (v ∷ vs) = elim (vtec_track_id v) [ none ↦ track_ids vs | some t ↦ t ∷ track_ids vs ]

unfoldable pub vtec_track_ids : ActiveAlert → List Text
vtec_track_ids a = track_ids a.vtec

-- `tid.split(".")`
pub split_dots : Text → Text → List Text
split_dots [] cur = cur ∷ []
split_dots (c ∷ s) cur = elim (c == b'.') [
  | true ↦ cur ∷ split_dots s []
  | false ↦ split_dots s (cur ++ c ∷ [])
]

pub sig_rank : Text → ℕ
sig_rank sig =
    if text_eq sig (codes "W")
    then 0
    else if text_eq sig (codes "A")
    then 10
    else if text_eq sig (codes "Y")
    then 20
    else if text_eq sig (codes "S")
    then 30
    else 40

-- the rank of one track id, if it has four parts
pub track_rank : List Text → Option ℕ
track_rank (office ∷ phen ∷ sig ∷ etn ∷ []) = some (sig_rank (upper sig))
track_rank _ = none

pub best_rank : List Text → Option ℕ → Option ℕ
best_rank [] best = best
best_rank (tid ∷ tids) best = elim (track_rank (split_dots tid [])) [
  | none ↦ best_rank tids best
  | some rank ↦ best_rank tids (elim best [ none ↦ some rank | some b ↦ some (min b rank) ])
]

pub vtec_significance_rank : ActiveAlert → Option ℕ
vtec_significance_rank a = best_rank (vtec_track_ids a) none

pub critical_codes : List Text
critical_codes = map codes (
    "EAN" ∷ "EVI" ∷ "CEM" ∷ "LAE" ∷ "CDW" ∷ "NUW" ∷ "RHW" ∷ "LEW" ∷ "TOE" ∷ "TOR" ∷ "FFW" ∷ "SVR"
    ∷ "SMW" ∷ "EWW" ∷ [])

pub watch_codes : List Text
watch_codes = map codes ("TOA" ∷ "SVA" ∷ "FFA" ∷ "HUA" ∷ "WSA" ∷ "TRA" ∷ [])

pub advisory_codes : List Text
advisory_codes = map codes (
    "ADR" ∷ "CAE" ∷ "CFW" ∷ "CFA" ∷ "EWW" ∷ "FAW" ∷ "FLW" ∷ "FLS" ∷ "HLS" ∷ "SPS" ∷ "SVS" ∷ "MWS"
    ∷ "NPW" ∷ "WSW" ∷ [])

pub source_rank : Text → ℕ
source_rank source =
    if text_eq source (codes "IPAWS")
    then 0
    else if text_eq source (codes "CAP")
    then 1
    else if text_eq source (codes "NWWS")
    then 1
    else if text_eq source (codes "ERN")
    then 4
    else if text_eq source (codes "PNS_CYCLE")
    then 8
    else 5

-- the ladder of `alert_priority_sort_key` below the VTEC rank
pub worded_severity : Text → Text → Text → ℕ
worded_severity code event source =
    if text_in code critical_codes
      || has_sub (codes "emergency") event
      || has_sub (codes "warning") event
    then 0
    else if text_in code watch_codes || has_sub (codes "watch") event
    then 10
    else if text_in code advisory_codes || has_sub (codes "advisory") event
    then 20
    else if has_sub (codes "statement") event || text_eq source (codes "ERN")
    then 30
    else 40

-- `(x or "").strip().upper()`
abbrev pub clean : Text → Text
clean s = upper (strip s)

pub severity_of : ActiveAlert → ℕ
severity_of a =
    let source = clean a.source in
    if text_eq source (codes "PNS_CYCLE") then 60 else elim (vtec_significance_rank a) [
      | some rank ↦ rank
      | none ↦ worded_severity (clean a.code) (lower (strip (text_or a.event a.headline))) source
    ]

-- the sort key of an alert
pub record PriorityKey : Type 0 where
  pub severity : ℕ
  pub source_rank : ℕ
  pub first_seen : ℕ
  pub id : Text

-- the order of the tuples
pub key_le : PriorityKey → PriorityKey → Bool
key_le a b =
    ltb a.severity b.severity
    || (a.severity == b.severity
        && (ltb a.source_rank b.source_rank
            || (a.source_rank == b.source_rank
                && (ltb a.first_seen b.first_seen
                    || (a.first_seen == b.first_seen && text_le a.id b.id)))))

module _ (fromisoformat : Text → Option Stamp) where
  pub alert_priority_sort_key : ActiveAlert → PriorityKey
  alert_priority_sort_key a = record {
    severity = severity_of a;
    source_rank = source_rank (clean a.source);
    first_seen = parse_iso_dt fromisoformat (option_or a.first_aired a.issued);
    id = a.id;
  }

  pub priority_le : ActiveAlert → ActiveAlert → Bool
  priority_le a b = key_le (alert_priority_sort_key a) (alert_priority_sort_key b)
