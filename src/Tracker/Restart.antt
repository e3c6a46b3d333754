-- ===== src/Tracker/Restart.antt =====
-- What a restart brings back from the table.
use mathlib.Core.List.{Perm}
use mathlib.Core.List.Perm
use seasonal_weather.Prelude.{
  Bool, true, false, Option, none, some, List, [], ◌∷◌, map, ◌≡◌, refl, sym, ◌∙◌, ap, arith,
  is_some, any, All, Text, text_eq, text_eq_iff, get, Dict, UniqueKeys, values, sort_by-perm,
  DifferBy, sort_by-DifferBy, put_all, put_all-rebuild,
}
use seasonal_weather.Alert.{Stamp, ActiveAlert}
use seasonal_weather.Tracker.{
  AlertTracker, persisted, new_tracker, load, all_fit, row_of, row_le, sorted_children,
  load_active_alerts,
}
use seasonal_weather.Tracker.Synced.{
  IsSynced, Keyed, Op, adds_fitting, apply_all, apply_all-IsSynced,
}

-- the process dies: the alerts in memory are gone, the table stays
abbrev pub crash : AlertTracker → AlertTracker
crash t = new_tracker t.table t.database_up

-- an alert as it comes back: its lines and codes in order, and no text in place of an empty one
unfoldable pub restored : ActiveAlert → ActiveAlert
restored a = sorted_children (row_of a)

abbrev same_id : ActiveAlert → ActiveAlert → Bool
same_id a b = text_eq a.id b.id

same_id_sym : (a b : ActiveAlert) → same_id a b ≡ false → same_id b a ≡ false
same_id_sym a b h = ground (arith, h, text_eq_iff a.id b.id, text_eq_iff b.id a.id)

-- rows under their ids
by_id : List ActiveAlert → Dict ActiveAlert
by_id [] = []
by_id (r ∷ rows) = (r.id, r) ∷ by_id rows

values-by_id : (rows : List ActiveAlert) → values (by_id rows) ≡ rows
unfolding by_id
values-by_id [] = refl
values-by_id (r ∷ rows) = ap (λ rest. r ∷ rest) (values-by_id rows)

get-by_id :
    (a : ActiveAlert) (rows : List ActiveAlert)
    → any (same_id a) rows ≡ false
    → get a.id (by_id rows) ≡ none
unfolding by_id get
get-by_id a [] h = refl
get-by_id a (r ∷ rows) h =
    ground
      (arith, h, text_eq_iff a.id r.id, text_eq_iff r.id a.id, get-by_id a rows (ground (arith, h)))

by_id-UniqueKeys : (rows : List ActiveAlert) → DifferBy same_id rows → UniqueKeys (by_id rows)
unfolding by_id
by_id-UniqueKeys [] d = tt
by_id-UniqueKeys (r ∷ rows) (fresh, d) = (get-by_id r rows fresh, by_id-UniqueKeys rows d)

by_id-keyed :
    (rows : List ActiveAlert) → All (λ (item : Text × ActiveAlert). item.1.id ≡ item.0) (by_id rows)
unfolding by_id
by_id-keyed [] = tt
by_id-keyed (r ∷ rows) = (refl, by_id-keyed rows)

put_all-by_id :
    (rows : List ActiveAlert) → DifferBy same_id rows → values (put_all (λ a. a.id) rows []) ≡ rows
put_all-by_id rows d =
    ap (λ rs. values (put_all (λ a. a.id) rs [])) (sym (values-by_id rows))
    ∙ (ap values
          (put_all-rebuild (λ a. a.id) (by_id rows) (by_id-UniqueKeys rows d) (by_id-keyed rows))
        ∙ values-by_id rows)

-- the alerts of a tracker have different ids
absent_differs :
    (a : ActiveAlert) (d : Dict ActiveAlert)
    → get a.id d ≡ none
    → All Keyed d
    → any (same_id a) (values d) ≡ false
unfolding get
absent_differs a [] h k = refl
absent_differs a ((i, b) ∷ d) h ((e, fit), k) = ground (
  arith,
  h,
  e,
  text_eq_iff a.id b.id,
  text_eq_iff i a.id,
  absent_differs a d (ground (arith, h)) k,
)

alerts_differ : (d : Dict ActiveAlert) → UniqueKeys d → All Keyed d → DifferBy same_id (values d)
alerts_differ [] u k = tt
alerts_differ ((i, a) ∷ d) (fresh, u) ((e, fit), k) =
    (absent_differs a d (ap (λ j. get j d) e ∙ fresh) k, alerts_differ d u k)

all_fit-values : (d : Dict ActiveAlert) → All Keyed d → all_fit (values d) ≡ true
unfolding all_fit
all_fit-values [] k = refl
all_fit-values ((i, a) ∷ d) ((e, fit), k) = ground (arith, fit, all_fit-values d k)

-- what keeps the ids keeps them different
module _ (f : ActiveAlert → ActiveAlert) (keeps : (a : ActiveAlert) → (f a).id ≡ a.id) where
  any-map_id :
      (a : ActiveAlert) (rows : List ActiveAlert)
      → any (same_id (f a)) (map f rows) ≡ any (same_id a) rows
  any-map_id a [] = refl
  any-map_id a (r ∷ rows) = ground (arith, keeps a, keeps r, any-map_id a rows)

  map-DifferBy : (rows : List ActiveAlert) → DifferBy same_id rows → DifferBy same_id (map f rows)
  map-DifferBy [] d = tt
  map-DifferBy (r ∷ rows) (fresh, d) = (any-map_id r rows ∙ fresh, map-DifferBy rows d)

load_active_alerts-perm :
    (alerts : List ActiveAlert)
    → Perm (load_active_alerts (map row_of alerts)) (map restored alerts)
unfolding load_active_alerts restored
load_active_alerts-perm alerts =
    rw (sym (map_map alerts)) (Perm.map sorted_children (sort_by-perm row_le (map row_of alerts)))
  where
    map_map : (xs : List ActiveAlert) → map sorted_children (map row_of xs) ≡ map restored xs
    map_map [] = refl
    map_map (x ∷ xs) =
        unfold restored in ap (λ rest. sorted_children (row_of x) ∷ rest) (map_map xs)

loaded :
    (t : AlertTracker) (alerts : Dict ActiveAlert)
    → t.table ≡ some (map row_of (values alerts))
    → t.database_up ≡ true
    → UniqueKeys alerts
    → All Keyed alerts
    → values (load t).0.alerts ≡ load_active_alerts (map row_of (values alerts))
unfolding load load_active_alerts sorted_children row_of
loaded t alerts e up u k =
    simp (e, up, load)
      (put_all-by_id (load_active_alerts (map row_of (values alerts))) (
        map-DifferBy sorted_children (λ a. refl) _
          (sort_by-DifferBy same_id row_le same_id_sym _
            (map-DifferBy row_of (λ a. refl) _ (alerts_differ alerts u k)))))

-- From a tracker with unique ids and a table in step, after any operations that end with a table and a working
-- database, where no added alert repeats a VTEC line or a SAME code: a new tracker on the same table loads exactly
-- the alerts that were held, once each, up to their order; each is as it was, but that its VTEC lines and SAME
-- codes are sorted and an empty audio path or time of airing is no path or time.
pub load_after_crash :
    (fromisoformat : Text → Option Stamp) (ops : List Op) (t : AlertTracker)
    → IsSynced t
    → All (λ op. adds_fitting op ≡ true) ops
    → (apply_all fromisoformat ops t).database_up ≡ true
    → is_some (apply_all fromisoformat ops t).table ≡ true
    → Perm
        (values (load (crash (apply_all fromisoformat ops t))).0.alerts)
        (map restored (values (apply_all fromisoformat ops t).alerts))
unfolding new_tracker
load_after_crash fromisoformat ops t s fits up there =
    let end = apply_all fromisoformat ops t in
    let synced = apply_all-IsSynced fromisoformat ops t fits s in
    rw
      (loaded (crash end) end.alerts (written end there up synced.keyed synced.written) up
        synced.unique synced.keyed)
      (load_active_alerts-perm (values end.alerts))
  where
    written :
        (end : AlertTracker)
        → is_some end.table ≡ true
        → end.database_up ≡ true
        → All Keyed end.alerts
        → persisted end ≡ end.table
        → end.table ≡ some (map row_of (values end.alerts))
    written end there up keyed same =
        unfold persisted in ground (arith, all_fit-values end.alerts keyed)
