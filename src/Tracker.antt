-- ===== src/Tracker.antt =====
-- seasonalweather/alerts/active.py: the tracker of active alerts, its table in the database and the
-- changes that it reports.
pub mod Synced
pub mod Shadow
pub mod Expiry
pub mod Restart
mod Examples
use seasonal_weather.Prelude.{
  ℕ, zero, suc, ◌+◌, ◌/◌, ◌%◌, max, Bool, true, false, not, ◌&&◌, ◌||◌, Option, none, some, List,
  [], ◌∷◌, ◌++◌, map, if◌then◌else◌, length, keep, any, nonempty, is_some, Text, codes, text_eq,
  text_in, text_le, strip, Dict, get, put, pop, has, keys, values, sort_by, sweep, put_all, ltb,
}
use seasonal_weather.Alert.{
  Stamp, ActiveAlert, text_or, clean, vtec_track_ids, is_expired, priority_le,
}

-- The repository is `table`; none is a tracker without a database. `database_up` says whether its
-- calls succeed, and `listener` whether a change callback is installed.
pub record AlertTracker : Type 0 where
  pub alerts : Dict ActiveAlert
  pub table : Option (List ActiveAlert)
  pub database_up : Bool
  pub listener : Bool
  pub emitted : List Text

unfoldable pub new_tracker : Option (List ActiveAlert) → Bool → AlertTracker
new_tracker table up = record {
  alerts = [];
  table = table;
  database_up = up;
  listener = false;
  emitted = [];
}

pub set_change_callback : Bool → AlertTracker → AlertTracker
set_change_callback installed t = record t { listener = installed }

pub emit_change : Text → AlertTracker → AlertTracker
emit_change reason t = record t {
  emitted = if t.listener then t.emitted ++ reason ∷ [] else t.emitted;
}

-- `str(x or "") or None`
pub stored_text : Option Text → Option Text
stored_text none = none
stored_text (some []) = none
stored_text (some (c ∷ s)) = some (c ∷ s)

-- an alert as its row and the rows of its two child tables
pub row_of : ActiveAlert → ActiveAlert
row_of a = record a {
  audio_path = stored_text a.audio_path;
  first_aired = stored_text a.first_aired;
  last_aired = stored_text a.last_aired;
}

pub no_repeat : List Text → Bool
no_repeat [] = true
no_repeat (x ∷ xs) = not (text_in x xs) && no_repeat xs

-- the primary keys (alert_id, vtec) and (alert_id, same_code)
pub fits_keys : ActiveAlert → Bool
fits_keys a = no_repeat a.vtec && no_repeat a.same_locs

pub all_fit : List ActiveAlert → Bool
all_fit [] = true
all_fit (a ∷ rest) = fits_keys a && all_fit rest

-- The rows after `_persist`, which replaces them in one transaction. A failure, also that of a primary key, rolls
-- back and is only logged. (The ids differ, as each alert stands under its own.)
pub persisted : AlertTracker → Option (List ActiveAlert)
persisted t = elim t.table [
  | none ↦ none
  | some rows ↦
      let alerts = values t.alerts in
      if t.database_up && all_fit alerts then some (map row_of alerts) else some rows
]

pub persist : AlertTracker → AlertTracker
persist t = record t { table = persisted t }

-- `{str(v).strip() for v in values if str(v).strip()}`, as a list
pub loc_set : List Text → List Text
loc_set values = keep nonempty (map strip values)

-- `a.issubset(b)`
pub is_subset : List Text → List Text → Bool
is_subset [] b = true
is_subset (x ∷ a) b = text_in x b && is_subset a b

-- an ERN relay with this code whose places all lie in these
pub is_shadowed : Text → List Text → ActiveAlert → Bool
is_shadowed code authoritative_locs existing =
    let relay_locs = loc_set existing.same_locs in
    text_eq (clean existing.source) (codes "ERN")
    && text_eq (clean existing.code) code
    && nonempty relay_locs
    && is_subset relay_locs authoritative_locs

-- the early returns of `_remove_shadowed_ern_relays_for`
pub is_authoritative : ActiveAlert → Bool
is_authoritative alert =
    not (text_eq (clean alert.source) (codes "ERN"))
    && nonempty (clean alert.code)
    && nonempty (loc_set alert.same_locs)

pub without_shadowed : ActiveAlert → Dict ActiveAlert → Dict ActiveAlert
without_shadowed alert alerts =
    if is_authoritative alert
    then (sweep (is_shadowed (clean alert.code) (loc_set alert.same_locs)) alerts alerts).0
    else alerts

pub remove_shadowed : ActiveAlert → AlertTracker → AlertTracker
remove_shadowed alert t = record t { alerts = without_shadowed alert t.alerts }

-- the guards of the loop of `remove_matching_source`
pub matches_source : Text → Text → List Text → ActiveAlert → Bool
matches_source source_u code_u wanted_locs existing =
    let existing_locs = loc_set existing.same_locs in
    text_eq (clean existing.source) source_u
    && (not (nonempty code_u) || text_eq (clean existing.code) code_u)
    && not (
        nonempty wanted_locs
        && nonempty existing_locs
        && not (is_subset existing_locs wanted_locs)
        && not (is_subset wanted_locs existing_locs))

-- pop what is doomed; write and report if anything went
pub remove_where : (ActiveAlert → Bool) → (ℕ → Text) → AlertTracker → AlertTracker × ℕ
remove_where doomed reason t =
    let (left, removed) = sweep doomed t.alerts t.alerts in
    let t' = record t { alerts = left } in
    (if ltb 0 removed then emit_change (reason removed) (persist t') else t', removed)

-- an argument that may be none: `code or ""`, `same_locs or []`
pub remove_matching_source : Text → Text → List Text → Text → AlertTracker → AlertTracker × ℕ
remove_matching_source source code same_locs reason =
    remove_where (matches_source (clean source) (clean code) (loc_set same_locs))
      (λ removed. codes "remove-matching:" ++ clean source ++ codes ":" ++ reason)

-- `a or b` for two optional texts
pub option_text_or : Option Text → Option Text → Option Text
option_text_or none b = b
option_text_or (some []) b = b
option_text_or (some (c ∷ a)) b = some (c ∷ a)

pub number_or : Option ℕ → Option ℕ → Option ℕ
number_or none b = b
number_or (some a) b = some a

-- the new alert with the chronology of the old one
pub keep_chronology : Option ActiveAlert → ActiveAlert → ActiveAlert
keep_chronology none alert = alert
keep_chronology (some prev) alert = record alert {
  issued = text_or prev.issued alert.issued;
  first_aired = option_text_or prev.first_aired alert.first_aired;
  last_aired = option_text_or prev.last_aired alert.last_aired;
  airing_count = max prev.airing_count alert.airing_count;
  watch_number = number_or alert.watch_number prev.watch_number;
}

pub add_or_update : ActiveAlert → AlertTracker → AlertTracker
add_or_update alert t =
    let alert' = keep_chronology (get alert.id t.alerts) alert in
    let t' = remove_shadowed alert' t in
    emit_change (codes "add-or-update:" ++ alert.source ++ codes ":" ++ alert.id)
      (persist (record t' { alerts = put alert'.id alert' t'.alerts }))

pub remove : Text → AlertTracker → AlertTracker × Bool
remove alert_id t =
    if has alert_id t.alerts
    then (
      emit_change (codes "remove:" ++ alert_id)
          (persist (record t { alerts = pop alert_id t.alerts })),
      true,
    )
    else (t, false)

-- a method that changes an alert in place, if it is there
pub change_alert : Text → (ActiveAlert → ActiveAlert) → AlertTracker → AlertTracker
change_alert alert_id change t = elim (get alert_id t.alerts) [
  | none ↦ t
  | some a ↦ persist (record t { alerts = put alert_id (change a) t.alerts })
]

pub aired : Text → ActiveAlert → ActiveAlert
aired now_iso a = record a {
  first_aired = if is_some a.first_aired then a.first_aired else some now_iso;
  last_aired = some now_iso;
  airing_count = suc a.airing_count;
}

pub mark_aired : Text → Text → AlertTracker → AlertTracker
mark_aired alert_id now_iso = change_alert alert_id (aired now_iso)

pub update_audio_path : Text → Text → AlertTracker → AlertTracker
update_audio_path alert_id audio_path t =
    let t' = change_alert alert_id (λ a. record a { audio_path = some audio_path }) t in
    if has alert_id t.alerts then emit_change (codes "update-audio:" ++ alert_id) t' else t'

pub update_script : Text → Text → AlertTracker → AlertTracker
update_script alert_id script_text t =
    let t' = change_alert alert_id (λ a. record a { script_text = script_text }) t in
    if has alert_id t.alerts then emit_change (codes "update-script:" ++ alert_id) t' else t'

pub is_known : Text → AlertTracker → Bool
is_known alert_id t = has alert_id t.alerts

pub has_track : List Text → ActiveAlert → Bool
has_track track_set a = any (λ tid. text_in tid track_set) (vtec_track_ids a)

unfoldable pub first_where : (ActiveAlert → Bool) → List ActiveAlert → Option ActiveAlert
first_where p [] = none
first_where p (a ∷ rest) = let later = first_where p rest in if p a then some a else later

unfoldable pub find_by_vtec_track : Text → AlertTracker → Option ActiveAlert
find_by_vtec_track track_id t =
    first_where (λ a. text_in track_id (vtec_track_ids a)) (values t.alerts)

pub remove_by_vtec_tracks : List Text → Text → AlertTracker → AlertTracker × ℕ
remove_by_vtec_tracks track_set reason =
    remove_where (has_track track_set) (λ removed. codes "remove-by-vtec:" ++ reason)

-- `COALESCE(first_aired_at, issued_at)`
pub begun_at : ActiveAlert → Text
begun_at r = elim r.first_aired [ none ↦ r.issued | some t ↦ t ]

pub text_lt : Text → Text → Bool
text_lt s t = text_le s t && not (text_eq s t)

-- the ORDER BY of `load_active_alerts`
pub row_le : ActiveAlert → ActiveAlert → Bool
row_le r s =
    text_lt (begun_at r) (begun_at s)
    || (text_eq (begun_at r) (begun_at s)
        && (text_lt r.issued s.issued || (text_eq r.issued s.issued && text_le r.id s.id)))

-- the rows of the child tables come in the order of their texts
pub sorted_children : ActiveAlert → ActiveAlert
sorted_children r = record r {
  vtec = sort_by text_le r.vtec;
  same_locs = sort_by text_le r.same_locs;
}

pub load_active_alerts : List ActiveAlert → List ActiveAlert
load_active_alerts rows = map sorted_children (sort_by row_le rows)

-- each row is stored under its id
pub load : AlertTracker → AlertTracker × ℕ
load t = elim t.table [
  | none ↦ (record t { alerts = [] }, 0)
  | some rows ↦
      let alerts = put_all (λ a. a.id) (load_active_alerts rows) [] in
      if t.database_up
      then (record t { alerts = alerts }, length alerts)
      else (record t { alerts = [] }, 0)
]

-- decimal digits, `str(n)`, on fuel
unfoldable pub decimal : ℕ → ℕ → Text
decimal zero n = []
decimal (suc fuel) n =
    let front = decimal fuel (n / 10) in
    if ltb n 10 then (b'0' + n) ∷ [] else front ++ (b'0' + n % 10) ∷ []

module _ (fromisoformat : Text → Option Stamp) where
  pub get_active : ℕ → AlertTracker → List ActiveAlert
  get_active now t =
      sort_by (priority_le fromisoformat)
        (keep (λ a. not (is_expired fromisoformat now a)) (values t.alerts))

  pub has_active : ℕ → AlertTracker → Bool
  has_active now t = nonempty (get_active now t)

  pub purge_expired : ℕ → AlertTracker → AlertTracker × ℕ
  purge_expired now =
      remove_where (is_expired fromisoformat now)
        (λ dead. codes "purge-expired:" ++ decimal (suc dead) dead)
