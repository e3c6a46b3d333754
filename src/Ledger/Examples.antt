-- ===== src/Ledger/Examples.antt =====
-- A ledger whose times are written as one character, and the theorem at it.
use seasonal_weather.Prelude.{
  ℕ, ◌≡◌, refl, arith, true, false, Option, none, some, [], ◌∷◌, Text, codes, strip, lstrip,
  is_space, ◌+◌, ◌-◌, pos,
}
use seasonal_weather.Ledger.{CapLedger, parse_iso, replace_z, has_key, mark_key, flush}
use seasonal_weather.Ledger.Marks.{
  Call, asking, marking, cleaning, flushing, replacing_rows, restart, call_all, has_key-mark_key,
}

-- a text of the digits of one number
abbrev one_character : ℕ → Text
one_character t = (t + 200000) ∷ []

abbrev read_character : Text → Option ℕ
read_character [] = none
read_character (c ∷ s) = some (c - 200000)

no_space : (t : ℕ) → is_space (t + 200000) ≡ false
unfolding is_space
no_space t = ground arith

strip_one : (c : ℕ) → is_space c ≡ false → strip (c ∷ []) ≡ c ∷ []
unfolding strip lstrip
strip_one c e = simp e refl

read_back : (t : ℕ) → parse_iso read_character one_character (one_character t) ≡ some t
unfolding parse_iso replace_z
read_back t = rw (strip_one (t + 200000) (no_space t)) (ground arith)

abbrev empty_ledger : CapLedger
empty_ledger = record {
  max_age_days = pos 1;
  database = some [];
  legacy = [];
  seen = [];
  is_loaded = true;
}

has_key-mark_key_example :
    ((has_key read_character one_character 90 (codes "a|1") (
        call_all read_character one_character
          (marking 20 (codes "b|2") ∷ replacing_rows 30 [] ∷ cleaning 30 ∷ [])
          (mark_key read_character one_character 10 (codes "a|1") empty_ledger))).0
      ≡ true)
    × ((has_key read_character one_character 90 (codes "a|1") (
          restart (
            flush read_character one_character 40 (
              call_all read_character one_character
                (marking 20 (codes "b|2") ∷ replacing_rows 30 [] ∷ cleaning 30 ∷ [])
                (mark_key read_character one_character 10 (codes "a|1") empty_ledger))))).0
        ≡ true)
unfolding seasonal_weather.Ledger.Marks.time_of
has_key-mark_key_example =
    has_key-mark_key read_character one_character read_back 10 90 40 (codes "a|1")
      (marking 20 (codes "b|2") ∷ replacing_rows 30 [] ∷ cleaning 30 ∷ []) empty_ledger refl
      ((omega arith, omega arith), ((omega arith, omega arith), ((omega arith, omega arith), tt)))
      (omega arith) (omega arith)

-- another writer that comes between the flush and the new process takes the entry away
flushed_key_is_lost :
    (has_key read_character one_character 90 (codes "a|1") (
      restart (
        call_all read_character one_character
          (flushing 40 ∷ replacing_rows 50 ((codes "c|3", one_character 50) ∷ []) ∷ [])
          (mark_key read_character one_character 10 (codes "a|1") empty_ledger)))).0
    ≡ false
unfolding has_key mark_key flush restart call_all parse_iso replace_z is_space lstrip strip
    seasonal_weather.Prelude.get seasonal_weather.Ledger.load seasonal_weather.Ledger.new_ledger
    seasonal_weather.Ledger.clean seasonal_weather.Ledger.kept_entries
    seasonal_weather.Ledger.load_entries seasonal_weather.Ledger.Marks.call
    seasonal_weather.Ledger.Marks.replace_rows seasonal_weather.Ledger.save
    seasonal_weather.Ledger.cleanup seasonal_weather.Ledger.repaired seasonal_weather.Prelude.put
    seasonal_weather.Prelude.text_eq
flushed_key_is_lost = refl
