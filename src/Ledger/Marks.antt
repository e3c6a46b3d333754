-- ===== src/Ledger/Marks.antt =====
-- An alert that is marked as seen stays seen.
use mathlib.Core.Path.{subst}
use seasonal_weather.Prelude.{
  All, ℕ, ◌+◌, ◌*◌, ◌≤◌, ◌≡◌, refl, sym, ap, ◌∙◌, arith, Bool, true, false, Option, none, some,
  List, [], ◌∷◌, leb, nonempty, Text, text_eq, text_eq_refl, Dict, get, put, get-put, Bool-cases,
  Option-cases, inl, inr, le→leb, ℤ, at_least,
}
use seasonal_weather.Ledger.{
  CapLedger, new_ledger, age_limit, save, parse_iso, repaired, kept_entries, clean, load_entries,
  load, cleanup, has_key, mark_key, flush,
}

pub data Call : Type 0 where
  asking : ℕ → Text → Call
  marking : ℕ → Text → Call
  cleaning : ℕ → Call
  flushing : ℕ → Call
  -- the rows are replaced by another writer of the table: the ledger of the IPAWS source, or housekeeping
  replacing_rows : ℕ → Dict Text → Call

unfoldable pub time_of : Call → ℕ
time_of (asking now key) = now
time_of (marking now key) = now
time_of (cleaning now) = now
time_of (flushing now) = now
time_of (replacing_rows now entries) = now

-- another writer has its entries in the database, if there is one
unfoldable pub replace_rows : Dict Text → CapLedger → CapLedger
replace_rows entries l = record l {
  database = elim l.database [ none ↦ none | some old ↦ some entries ];
}

-- a new process on the same database and file
unfoldable pub restart : CapLedger → CapLedger
restart l = new_ledger l.max_age_days l.database l.legacy

module _ (fromisoformat : Text → Option ℕ) (isoformat : ℕ → Text) where
  unfoldable pub call : Call → CapLedger → CapLedger
  call (asking now key) l = (has_key fromisoformat isoformat now key l).1
  call (marking now key) l = mark_key fromisoformat isoformat now key l
  call (cleaning now) l = cleanup fromisoformat isoformat now l
  call (flushing now) l = flush fromisoformat isoformat now l
  call (replacing_rows now entries) l = replace_rows entries l

  unfoldable pub call_all : List Call → CapLedger → CapLedger
  call_all [] l = l
  call_all (c ∷ calls) l = call_all calls (call c l)

some_inj : {x y : Text} → some x ≡ some y → x ≡ y
some_inj e = cc

-- a text of a time is read back
module _ (fromisoformat : Text → Option ℕ) (isoformat : ℕ → Text)
    (reads : (t : ℕ) → parse_iso fromisoformat isoformat (isoformat t) ≡ some t) where
  -- seen since a time
  IsSince : ℕ → Text → Dict Text → Type 0
  IsSince from key d = (t : ℕ) × (from ≤ t) × (get key d ≡ some (isoformat t))

  own_time : (now t : ℕ) → repaired fromisoformat isoformat now (isoformat t) ≡ (t, isoformat t)
  unfolding repaired
  own_time now t = rw (reads t, repaired) refl

  kept_first :
      (now limit t : ℕ) (k : Text) (d : Dict Text)
      → now ≤ t + limit
      → kept_entries fromisoformat isoformat now limit ((k, isoformat t) ∷ d)
        ≡ (k, isoformat t) ∷ kept_entries fromisoformat isoformat now limit d
  unfolding kept_entries
  kept_first now limit t k d young =
      rw (own_time now t, kept_entries, le→leb now (t + limit) young) refl

  get-kept_other :
      (now limit : ℕ) (key k v : Text) (d : Dict Text)
      → text_eq k key ≡ false
      → get key (kept_entries fromisoformat isoformat now limit ((k, v) ∷ d))
        ≡ get key (kept_entries fromisoformat isoformat now limit d)
  unfolding kept_entries get
  get-kept_other now limit key k v d miss =
      elim (Bool-cases (leb now ((repaired fromisoformat isoformat now v).0 + limit))) [
        | inl young ↦ rw (kept_entries, young, miss) refl
        | inr old ↦ rw (kept_entries, old) refl
      ]

  kept_entries-IsSince :
      (from now limit : ℕ) (key : Text) (d : Dict Text)
      → now ≤ from + limit
      → IsSince from key d
      → IsSince from key (kept_entries fromisoformat isoformat now limit d)
  unfolding get IsSince
  kept_entries-IsSince from now limit key [] young (t, late, e) = cc
  kept_entries-IsSince from now limit key ((k, v) ∷ d) young (t, late, e) =
      elim (Bool-cases (text_eq k key)) [
        | inl hit ↦ (
          t,
          late,
          ap (λ w. get key (kept_entries fromisoformat isoformat now limit ((k, w) ∷ d)))
                (some_inj (sym (simp hit refl) ∙ e))
              ∙ (ap (get key) (kept_first now limit t k d (omega arith)) ∙ simp hit refl),
        )
        | inr miss ↦
            let (t', late', e') =
              kept_entries-IsSince from now limit key d young (t, late, simp miss refl ∙ e) in
            (t', late', get-kept_other now limit key k v d miss ∙ e')
      ]

  -- a loaded ledger with the entry
  record IsSafe (days : ℤ) (from : ℕ) (key : Text) (l : CapLedger) : Type 0 where
    loaded : l.is_loaded ≡ true
    age : l.max_age_days ≡ days
    since : IsSince from key l.seen

  clean-IsSafe :
      (days : ℤ) (from now : ℕ) (key : Text) (l : CapLedger)
      → now ≤ from + at_least 3 days * 86400000000
      → IsSafe days from key l
      → IsSafe days from key (clean fromisoformat isoformat now l)
  unfolding clean
  clean-IsSafe days from now key l young h = record {
    loaded = h.loaded;
    age = h.age;
    since =
        kept_entries-IsSince from now (age_limit l) key l.seen
          (subst (λ d. now ≤ from + at_least 3 d * 86400000000) (sym h.age) young) h.since;
  }

  put-IsSince :
      (from now : ℕ) (key other : Text) (d : Dict Text)
      → from ≤ now
      → IsSince from key d
      → IsSince from key (put other (isoformat now) d)
  unfolding IsSince
  put-IsSince from now key other d order (t, late, e) = elim (Bool-cases (text_eq other key)) [
    | inl hit ↦ (now, order, get-put key other (isoformat now) d ∙ rw hit refl)
    | inr miss ↦ (t, late, get-put key other (isoformat now) d ∙ rw miss e)
  ]

  save-IsSafe :
      (days : ℤ) (from : ℕ) (key : Text) (l : CapLedger)
      → IsSafe days from key l
      → IsSafe days from key (save l)
  unfolding save
  save-IsSafe days from key l h = elim (Option-cases l.database) [
    | inl e ↦ rw (e, save) (record { loaded = h.loaded; age = h.age; since = h.since })
    | inr (entries, e) ↦ rw (e, save) (record { loaded = h.loaded; age = h.age; since = h.since })
  ]

  loaded_load :
      (now : ℕ) (l : CapLedger) → l.is_loaded ≡ true → load fromisoformat isoformat now l ≡ l
  unfolding load
  loaded_load now l e = simp (e, load) refl

  loaded_cleanup :
      (now : ℕ) (l : CapLedger)
      → l.is_loaded ≡ true
      → cleanup fromisoformat isoformat now l ≡ clean fromisoformat isoformat now l
  unfolding cleanup
  loaded_cleanup now l e = simp (e, cleanup) refl

  call-IsSafe :
      (days : ℤ) (from : ℕ) (key : Text) (c : Call) (l : CapLedger)
      → from ≤ time_of c
      → time_of c ≤ from + at_least 3 days * 86400000000
      → IsSafe days from key l
      → IsSafe days from key (call fromisoformat isoformat c l)
  unfolding call has_key mark_key flush time_of replace_rows
  call-IsSafe days from key (asking now other) l order young h = rw (loaded_load now l h.loaded) h
  call-IsSafe days from key (marking now other) l order young h =
      rw (loaded_load now l h.loaded) (record {
        loaded = h.loaded;
        age = h.age;
        since = put-IsSince from now key other l.seen order h.since;
      })
  call-IsSafe days from key (cleaning now) l order young h =
      rw (loaded_cleanup now l h.loaded) (clean-IsSafe days from now key l young h)
  call-IsSafe days from key (flushing now) l order young h =
      rw (loaded_cleanup now l h.loaded)
        (save-IsSafe days from key _ (clean-IsSafe days from now key l young h))
  call-IsSafe days from key (replacing_rows now entries) l order young h = record {
    loaded = h.loaded;
    age = h.age;
    since = h.since;
  }

  call_all-IsSafe :
      (days : ℤ) (from : ℕ) (key : Text) (calls : List Call) (l : CapLedger)
      → All (λ c. (from ≤ time_of c) × (time_of c ≤ from + at_least 3 days * 86400000000)) calls
      → IsSafe days from key l
      → IsSafe days from key (call_all fromisoformat isoformat calls l)
  unfolding call_all
  call_all-IsSafe days from key [] l young h = h
  call_all-IsSafe days from key (c ∷ calls) l ((order, young), rest) h =
      call_all-IsSafe days from key calls (call fromisoformat isoformat c l) rest
        (call-IsSafe days from key c l order young h)

  safe_has :
      (days : ℤ) (from now : ℕ) (key : Text) (l : CapLedger)
      → IsSafe days from key l
      → (has_key fromisoformat isoformat now key l).0 ≡ true
  unfolding has_key IsSince
  safe_has days from now key l h = rw (loaded_load now l h.loaded, h.since.2) refl

  -- the entries come back from where they were saved
  nonempty_since : (from : ℕ) (key : Text) (d : Dict Text) → IsSince from key d → nonempty d ≡ true
  unfolding IsSince get
  nonempty_since from key [] (t, late, e) = cc
  nonempty_since from key (x ∷ d) h = refl

  -- what a new process loads of a saved ledger
  reloaded : CapLedger → CapLedger
  reloaded l = load_entries fromisoformat isoformat (restart (save l))

  load_entries-save :
      (age : ℤ) (database : Option (Dict Text)) (legacy seen : Dict Text) (on : Bool)
      → nonempty seen ≡ true
      → (reloaded (record {
        max_age_days = age;
        database = database;
        legacy = legacy;
        seen = seen;
        is_loaded = on;
      })).seen
        ≡ seen
  unfolding reloaded load_entries restart new_ledger save
  load_entries-save age none legacy seen on some_seen = refl
  load_entries-save age (some entries) legacy seen on some_seen = rw (some_seen, load_entries) refl

  load_entries-fields :
      (age : ℤ) (database : Option (Dict Text)) (legacy seen : Dict Text) (on : Bool)
      → nonempty seen ≡ true
      → ((reloaded (record {
        max_age_days = age;
        database = database;
        legacy = legacy;
        seen = seen;
        is_loaded = on;
      })).is_loaded
          ≡ true)
        × ((reloaded (record {
          max_age_days = age;
          database = database;
          legacy = legacy;
          seen = seen;
          is_loaded = on;
        })).max_age_days
            ≡ age)
  unfolding reloaded load_entries restart new_ledger save
  load_entries-fields age none legacy seen on some_seen = (refl, refl)
  load_entries-fields age (some entries) legacy seen on some_seen =
      rw (some_seen, load_entries) (refl, refl)

  load-IsSafe :
      (days : ℤ) (from now : ℕ) (key : Text) (l : CapLedger)
      → now ≤ from + at_least 3 days * 86400000000
      → IsSafe days from key l
      → IsSafe days from key (load fromisoformat isoformat now (restart (save l)))
  unfolding load restart new_ledger reloaded
  load-IsSafe days from now key l young h =
      let full = nonempty_since from key l.seen h.since in
      let (on, age) =
        load_entries-fields l.max_age_days l.database l.legacy l.seen l.is_loaded full in
      clean-IsSafe days from now key (reloaded l) young (record {
        loaded = on;
        age = age ∙ h.age;
        since =
            subst (IsSince from key)
              (sym (load_entries-save l.max_age_days l.database l.legacy l.seen l.is_loaded full))
              h.since;
      })

  marked-IsSafe :
      (from : ℕ) (key : Text) (l : CapLedger)
      → l.is_loaded ≡ true
      → IsSafe l.max_age_days from key (mark_key fromisoformat isoformat from key l)
  unfolding mark_key IsSince
  marked-IsSafe from key l on = rw (loaded_load from l on) (record {
    loaded = on;
    age = refl;
    since =
        (from, omega arith, get-put key key (isoformat from) l.seen ∙ rw (text_eq_refl key) refl);
  })

  -- An alert that is marked in a loaded ledger is found again, in the same process and in a new one after a flush,
  -- after any further calls and writes of others to the shared table, as long as no time comes before the mark or
  -- more than the age limit after it, and between that last flush and the load of the new process nothing else
  -- writes the table. (The limit is three days at least, and a text that `isoformat` gives is read back.)
  pub has_key-mark_key :
      (from now flushed : ℕ) (key : Text) (calls : List Call) (l : CapLedger)
      → l.is_loaded ≡ true
      → All
          (λ c. (from ≤ time_of c) × (time_of c ≤ from + at_least 3 l.max_age_days * 86400000000))
          calls
      → flushed ≤ from + at_least 3 l.max_age_days * 86400000000
      → now ≤ from + at_least 3 l.max_age_days * 86400000000
      → ((has_key fromisoformat isoformat now key (
            call_all fromisoformat isoformat calls (mark_key fromisoformat isoformat from key l))).0
          ≡ true)
        × ((has_key fromisoformat isoformat now key (
              restart (
                flush fromisoformat isoformat flushed (
                  call_all fromisoformat isoformat calls
                    (mark_key fromisoformat isoformat from key l))))).0
            ≡ true)
  unfolding has_key flush IsSince
  has_key-mark_key from now flushed key calls l on timely flushed_young young =
      let later =
        call_all-IsSafe l.max_age_days from key calls (mark_key fromisoformat isoformat from key l)
          timely (marked-IsSafe from key l on) in
      let again =
        load-IsSafe l.max_age_days from now key _ young
          (clean-IsSafe l.max_age_days from flushed key _ flushed_young later) in
      (
        safe_has l.max_age_days from now key _ later,
        rw
            (
              loaded_cleanup flushed
                  (call_all fromisoformat isoformat calls
                    (mark_key fromisoformat isoformat from key l))
                  later.loaded,
              again.since.2,
            )
            refl,
      )
