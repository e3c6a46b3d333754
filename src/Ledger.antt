-- ===== src/Ledger.antt =====
-- seasonalweather/alerts/cap_ledger.py: the ledger of the CAP alerts that were seen. A time is a number of
-- microseconds, and `fromisoformat` gives it, with a text that names no zone read as UTC; none is its ValueError.
pub mod Marks
mod Examples
use seasonal_weather.Prelude.{
  ℕ, zero, suc, ◌+◌, ◌*◌, ◌-◌, ◌≤◌, Bool, true, false, not, ◌&&◌, Option, none, some, List, [], ◌∷◌,
  ◌++◌, if◌then◌else◌, ltb, leb, ◌==◌, is_some, nonempty, Text, codes, strip, Dict, get, put, has,
  ℤ, at_least,
}

-- the entries of the database, none without one, and of the older file
pub record CapLedger : Type 0 where
  pub max_age_days : ℤ
  pub database : Option (Dict Text)
  pub legacy : Dict Text
  pub seen : Dict Text
  pub is_loaded : Bool

pub new_ledger : ℤ → Option (Dict Text) → Dict Text → CapLedger
new_ledger max_age_days database legacy = record {
  max_age_days = max_age_days;
  database = database;
  legacy = legacy;
  seen = [];
  is_loaded = false;
}

-- `.replace("Z", "+00:00")`
pub replace_z : Text → Text
replace_z [] = []
replace_z (c ∷ s) = if c == 90 then codes "+00:00" ++ replace_z s else c ∷ replace_z s

pub make_key : Text → Text → Text
make_key alert_id sent = strip alert_id ++ (codes "|" ++ strip sent)

abbrev pub age_limit : CapLedger → ℕ
age_limit l = at_least 3 l.max_age_days * 86400000000

-- `replace_entries`, and the file where there is no database
pub save : CapLedger → CapLedger
save l = elim l.database [
  | none ↦ record l { legacy = l.seen }
  | some entries ↦ record l { database = some l.seen }
]

module _ (fromisoformat : Text → Option ℕ) (isoformat : ℕ → Text) where
  pub parse_iso : Text → Option ℕ
  parse_iso [] = none
  parse_iso (c ∷ s) = fromisoformat (replace_z (strip (c ∷ s)))

  -- an entry that cannot be read is dated now
  pub repaired : ℕ → Text → ℕ × Text
  repaired now v = elim (parse_iso v) [ none ↦ (now, isoformat now) | some t ↦ (t, v) ]

  pub kept_entries : ℕ → ℕ → Dict Text → Dict Text
  kept_entries now limit [] = []
  kept_entries now limit ((k, v) ∷ d) =
      let rest = kept_entries now limit d in
      let (t, v') = repaired now v in if leb now (t + limit) then (k, v') ∷ rest else rest

  -- `cleanup` of a ledger that is loaded
  pub clean : ℕ → CapLedger → CapLedger
  clean now l = record l { seen = kept_entries now (age_limit l) l.seen }

  -- the entries of the database, or else those of the older file, which then move to the database
  pub load_entries : CapLedger → CapLedger
  load_entries l = elim l.database [
    | none ↦ record l { seen = l.legacy; is_loaded = true }
    | some entries ↦
        if nonempty entries then record l { seen = entries; is_loaded = true } else record l {
          seen = l.legacy;
          is_loaded = true;
          database = some (if nonempty l.legacy then l.legacy else entries);
        }
  ]

  pub load : ℕ → CapLedger → CapLedger
  load now l = if l.is_loaded then l else clean now (load_entries l)

  pub cleanup : ℕ → CapLedger → CapLedger
  cleanup now l = if l.is_loaded then clean now l else load now l

  pub has_key : ℕ → Text → CapLedger → Bool × CapLedger
  has_key now key l = let l' = load now l in (has key l'.seen, l')

  pub mark_key : ℕ → Text → CapLedger → CapLedger
  mark_key now key l = let l' = load now l in record l' { seen = put key (isoformat now) l'.seen }

  pub flush : ℕ → CapLedger → CapLedger
  flush now l = save (cleanup now l)
