-- ===== src/Tracker/Shadow.antt =====
-- What a new alert changes in the tracker: its own entry, and the ERN relays that it makes redundant.
use seasonal_weather.Prelude.{
  ◌≤◌, ◌≢◌, ◌⊎◌, List, All, codes, nonempty, text_in, Bool, true, ◌&&◌, Option, none, some, ◌≡◌,
  if◌then◌else◌, Text,
}
use seasonal_weather.Alert.{ActiveAlert, clean}
use seasonal_weather.Tracker.{loc_set, is_shadowed, is_authoritative}

-- a relay that the alert makes redundant
abbrev pub shadows : ActiveAlert → ActiveAlert → Bool
shadows a b = is_authoritative a && is_shadowed (clean a.code) (loc_set a.same_locs) b

-- what is left of an entry
abbrev pub unless_shadowed : ActiveAlert → Option ActiveAlert → Option ActiveAlert
unless_shadowed a none = none
unless_shadowed a (some b) = if shadows a b then none else some b

-- Every place of one list is in another.
abbrev pub AllWithin : List Text → List Text → Type 0
AllWithin xs ys = All (λ x. text_in x ys ≡ true) xs

-- The alert makes the entry redundant: the entry is an ERN relay with places, the alert is none and carries the
-- same code, and each place of the relay is one of the alert's.
pub record IsRedundant (a b : ActiveAlert) : Type 0 where
  pub alert_source : clean a.source ≢ codes "ERN"
  pub alert_code : nonempty (clean a.code) ≡ true
  pub relay_source : clean b.source ≡ codes "ERN"
  pub relay_code : clean b.code ≡ clean a.code
  pub relay_places : nonempty (loc_set b.same_locs) ≡ true
  pub places : AllWithin (loc_set b.same_locs) (loc_set a.same_locs)

-- what the stored alert keeps of the entry before it
pub KeepsHistory : ActiveAlert → Option ActiveAlert → ActiveAlert → Type 0
KeepsHistory a none s = s ≡ a
KeepsHistory a (some p) s =
    (s.issued ≡ (if nonempty p.issued then p.issued else a.issued))
    × (p.airing_count ≤ s.airing_count)
    × (a.airing_count ≤ s.airing_count)
    × (s.headline ≡ a.headline)
    × (s.script_text ≡ a.script_text)
    × (s.expires ≡ a.expires)
    × (s.vtec ≡ a.vtec)
    × (s.same_locs ≡ a.same_locs)

-- what happens to an entry under another id
pub Outcome : ActiveAlert → Option ActiveAlert → Option ActiveAlert → Type 0
Outcome a none after = after ≡ none
Outcome a (some b) after =
    (IsRedundant a b × (after ≡ none)) ⊎ ((¬ IsRedundant a b) × (after ≡ some b))
