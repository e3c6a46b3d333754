-- ===== src/Tracker/Examples.antt =====
-- A tracker with one relayed and one authoritative warning, and the theorems at its inputs.
use mathlib.Core.List.{Perm}
use seasonal_weather.Prelude.{
  Bool, true, false, not, ◌&&◌, Option, none, some, List, [], ◌∷◌, ◌≡◌, refl, leb, length, keep,
  any, Text, codes, text_in, get, put, values, UniqueKeys, upper, strip, map, sweep, pop,
  keep_items, SortedBy,
}
use seasonal_weather.Alert.{
  Stamp, expires_dt, naive, aware, ActiveAlert, priority_le, severity_of, is_expired,
  vtec_track_ids,
}
use seasonal_weather.Tracker.{
  AlertTracker, fits_keys, all_fit, no_repeat, persisted, emit_change, persist, remove_shadowed,
  without_shadowed, is_authoritative, loc_set, is_shadowed, is_subset, new_tracker, add_or_update,
  purge_expired, get_active, load, keep_chronology, find_by_vtec_track, remove_by_vtec_tracks,
  has_track,
}
use seasonal_weather.Tracker.Synced.{IsSynced, Op, apply, add, air, purge, adds_fitting, apply_all}
use seasonal_weather.Tracker.Restart.{crash, restored, load_after_crash}
use seasonal_weather.Tracker.Expiry.{
  get_active_lem, purge_expired_lem, naive_never_purged, remove_by_vtec_tracks_lem,
}

abbrev relay : ActiveAlert
relay = record {
  id = codes "ERN:1";
  source = codes "ERN";
  event = codes "Tornado Warning";
  code = codes "TOR";
  vtec = [];
  headline = codes "Tornado Warning";
  script_text = codes "Take shelter";
  audio_path = none;
  expires = codes "2026-06-01T12:00:00";
  issued = codes "2026-06-01T11:00:00Z";
  same_locs = codes "048439" ∷ [];
  cycle_only = false;
  watch_number = none;
  first_aired = none;
  last_aired = none;
  airing_count = 0;
}

abbrev warning : ActiveAlert
warning = record relay {
  id = codes "NWWS:1";
  source = codes "NWWS";
  vtec = codes "/O.NEW.KFWD.TO.W.0007.260601T1100Z-260601T1200Z/" ∷ [];
}

-- a clock that reads every text as noon, with and without an offset
abbrev offset_noon : Text → Option Stamp
offset_noon s = some (aware 12)

abbrev local_noon : Text → Option Stamp
local_noon s = some (naive 12)

abbrev empty : AlertTracker
empty = new_tracker (some []) true

empty-IsSynced : IsSynced empty
unfolding new_tracker all_fit
empty-IsSynced = record { unique = tt; keyed = tt; written = unfold persisted in refl }

abbrev holding : AlertTracker
holding = record empty { alerts = (relay.id, relay) ∷ [] }

holding-UniqueKeys : UniqueKeys holding.alerts
unfolding get
holding-UniqueKeys = (refl, tt)

abbrev ops : List Op
ops = add relay ∷ air relay.id (codes "2026-06-01T11:05:00Z") ∷ add warning ∷ purge 11 ∷ []

abbrev wide : ActiveAlert
wide = record relay { same_locs = codes "051059" ∷ codes "024031" ∷ [] }

load_after_crash_example :
    Perm
      (values (load (crash (apply_all offset_noon (add wide ∷ []) empty))).0.alerts)
      (map restored (values (apply_all offset_noon (add wide ∷ []) empty).alerts))
unfolding new_tracker apply_all apply adds_fitting fits_keys no_repeat text_in all_fit add_or_update
    emit_change persist remove_shadowed persisted put without_shadowed is_authoritative upper strip
    keep_chronology get
load_after_crash_example =
    load_after_crash offset_noon (add wide ∷ []) empty empty-IsSynced (refl, tt) refl refl

-- an alert that repeats a code is not written, and the table keeps the rows that it had
abbrev repeating : ActiveAlert
repeating = record warning { same_locs = codes "048439" ∷ codes "048439" ∷ [] }

repeating_not_written : (add_or_update repeating empty).table ≡ some []
unfolding new_tracker add_or_update emit_change persist persisted remove_shadowed all_fit fits_keys
    no_repeat text_in put without_shadowed is_authoritative upper strip keep_chronology get loc_set
    sweep
repeating_not_written = refl

-- the relay is gone
relay_shadowed : get (codes "ERN:1") (add_or_update warning holding).alerts ≡ none
unfolding get add_or_update emit_change persist put remove_shadowed without_shadowed
    is_authoritative upper strip keep_chronology loc_set sweep is_shadowed is_subset text_in pop
relay_shadowed = refl

get_active_lem_example :
    SortedBy (priority_le offset_noon) (get_active offset_noon 11 holding)
    × SortedBy (λ a b. leb (severity_of a) (severity_of b)) (get_active offset_noon 11 holding)
    × ((p : ActiveAlert → Bool)
        → any p (get_active offset_noon 11 holding)
          ≡ any (λ a. not (is_expired offset_noon 11 a) && p a) (values holding.alerts))
get_active_lem_example = get_active_lem offset_noon 11 holding

purge_expired_lem_example :
    ((purge_expired offset_noon 13 holding).0.alerts
      ≡ keep_items (λ a. not (is_expired offset_noon 13 a)) holding.alerts)
    × ((purge_expired offset_noon 13 holding).1
        ≡ length (keep (is_expired offset_noon 13) (values holding.alerts)))
    × (get_active offset_noon 13 (purge_expired offset_noon 13 holding).0
        ≡ get_active offset_noon 13 holding)
purge_expired_lem_example = purge_expired_lem offset_noon 13 holding holding-UniqueKeys

naive_never_purged_example :
    get (codes "ERN:1") (purge_expired local_noon 13 holding).0.alerts ≡ some relay
unfolding strip
naive_never_purged_example =
    naive_never_purged local_noon 13 holding (codes "ERN:1") relay 12 holding-UniqueKeys
      (unfold get in refl) (unfold expires_dt in refl)

abbrev tracked : AlertTracker
tracked = record empty { alerts = (warning.id, warning) ∷ [] }

tracked-UniqueKeys : UniqueKeys tracked.alerts
unfolding get
tracked-UniqueKeys = (refl, tt)

remove_by_vtec_tracks_lem_example :
    (find_by_vtec_track
        (codes "KFWD.TO.W.0007")
        (remove_by_vtec_tracks (codes "KFWD.TO.W.0007" ∷ []) (codes "CAN") tracked).0
      ≡ none)
    × ((remove_by_vtec_tracks (codes "KFWD.TO.W.0007" ∷ []) (codes "CAN") tracked).0.alerts
        ≡ keep_items
            (λ a. not (any (λ tid. text_in tid (codes "KFWD.TO.W.0007" ∷ [])) (vtec_track_ids a)))
            tracked.alerts)
    × ((remove_by_vtec_tracks (codes "KFWD.TO.W.0007" ∷ []) (codes "CAN") tracked).1
        ≡ length (keep_items (has_track (codes "KFWD.TO.W.0007" ∷ [])) tracked.alerts))
remove_by_vtec_tracks_lem_example =
    remove_by_vtec_tracks_lem (codes "KFWD.TO.W.0007" ∷ []) (codes "CAN") tracked
      (codes "KFWD.TO.W.0007") tracked-UniqueKeys (unfold text_in in refl)
