-- ===== src/Tracker/Expiry.antt =====
-- What expiry and the removal by VTEC take out, and what the rotation holds.
use seasonal_weather.Prelude.{
  ℕ, Bool, true, false, not, ◌&&◌, Option, none, some, List, [], ◌∷◌, ◌≡◌, refl, ◌∙◌, ap, arith,
  if◌then◌else◌, ltb, leb, length, keep, any, any-keep, keep-keep, Text, codes, ◌++◌, text_eq,
  text_eq_iff, text_in, Dict, get, values, UniqueKeys, sweep, sweep-keep_items, sweep-count,
  keep_items, values-keep_items, get-keep_items, sort_by, SortedBy, sort_by-SortedBy, SortedBy-mono,
  any-sort_by, Bool-cases, inl, inr,
}
use seasonal_weather.Alert.{
  Stamp, naive, ActiveAlert, is_expired, expires_dt, priority_le, severity_of, vtec_track_ids,
}
use seasonal_weather.Alert.Order.{priority_le_total, priority_le-severity, is_expired_naive}
use seasonal_weather.Tracker.{
  AlertTracker, emit_change, persist, remove_where, get_active, purge_expired, has_track,
  first_where, find_by_vtec_track, remove_by_vtec_tracks,
}

-- `remove_where` keeps the alerts that are not doomed, in their order.
alerts-remove_where :
    (doomed : ActiveAlert → Bool) (reason : ℕ → Text) (t : AlertTracker)
    → UniqueKeys t.alerts
    → (remove_where doomed reason t).0.alerts ≡ keep_items (λ a. not (doomed a)) t.alerts
unfolding remove_where
alerts-remove_where doomed reason t u =
    elim (Bool-cases (ltb 0 (sweep doomed t.alerts t.alerts).1)) [
      | inl gone ↦ rw gone (unfold emit_change persist in sweep-keep_items doomed t.alerts u)
      | inr kept ↦ rw kept (sweep-keep_items doomed t.alerts u)
    ]

module _ (fromisoformat : Text → Option Stamp) (now : ℕ) where
  abbrev expired : ActiveAlert → Bool
  expired = is_expired fromisoformat now

  -- The rotation is sorted by the priority key, so by severity too, and a test holds of some alert of it
  -- just when it holds of some alert of the tracker that is not expired.
  pub get_active_lem :
      (t : AlertTracker)
      → SortedBy (priority_le fromisoformat) (get_active fromisoformat now t)
        × SortedBy (λ a b. leb (severity_of a) (severity_of b)) (get_active fromisoformat now t)
        × ((p : ActiveAlert → Bool)
            → any p (get_active fromisoformat now t)
              ≡ any (λ a. not (is_expired fromisoformat now a) && p a) (values t.alerts))
  unfolding get_active
  get_active_lem t =
      let le = priority_le fromisoformat in
      let live = keep (λ a. not (expired a)) (values t.alerts) in
      let sorted = sort_by-SortedBy le (priority_le_total fromisoformat) live in
      (
        sorted,
        SortedBy-mono le (λ a b. leb (severity_of a) (severity_of b))
            (priority_le-severity fromisoformat) (sort_by le live) sorted,
        λ p. any-sort_by le p live ∙ any-keep (λ a. not (expired a)) p (values t.alerts),
      )

  -- In a tracker with unique ids, a purge takes out exactly the expired alerts, keeps the order of the
  -- others, returns how many went, and leaves the rotation at that time as it is.
  pub purge_expired_lem :
      (t : AlertTracker)
      → UniqueKeys t.alerts
      → ((purge_expired fromisoformat now t).0.alerts
          ≡ keep_items (λ a. not (is_expired fromisoformat now a)) t.alerts)
        × ((purge_expired fromisoformat now t).1
            ≡ length (keep (is_expired fromisoformat now) (values t.alerts)))
        × (get_active fromisoformat now (purge_expired fromisoformat now t).0
            ≡ get_active fromisoformat now t)
  unfolding purge_expired get_active
  purge_expired_lem t u =
      let left = alerts-remove_where expired _ t u in
      let live : ActiveAlert → Bool = λ a. not (expired a) in
      (
        left,
        count t,
        ap (λ d. sort_by (priority_le fromisoformat) (keep live (values d))) left
            ∙ ap (sort_by (priority_le fromisoformat)) (
                ap (keep live) (values-keep_items live t.alerts)
                ∙ keep-keep live (values t.alerts)),
      )
    where
      count :
          (t : AlertTracker)
          → (purge_expired fromisoformat now t).1 ≡ length (keep expired (values t.alerts))
      count t =
          unfold remove_where in sweep-count expired t.alerts t.alerts ∙ length-keep_items t.alerts
        where
          length-keep_items :
              (d : Dict ActiveAlert)
              → length (keep_items expired d) ≡ length (keep expired (values d))
          length-keep_items [] = refl
          length-keep_items ((k, a) ∷ d) = ground (arith, length-keep_items d)

  -- In a tracker with unique ids, an alert whose expiry parses to a time without an offset is still
  -- there after a purge, at any time.
  pub naive_never_purged :
      (t : AlertTracker) (k : Text) (a : ActiveAlert) (local : ℕ)
      → UniqueKeys t.alerts
      → get k t.alerts ≡ some a
      → expires_dt fromisoformat a ≡ naive local
      → get k (purge_expired fromisoformat now t).0.alerts ≡ some a
  unfolding purge_expired
  naive_never_purged t k a local u found e =
      ap (get k) (alerts-remove_where expired _ t u)
      ∙ (get-keep_items (λ b. not (expired b)) k t.alerts u ∙ kept)
    where
      stays : expired a ≡ false
      stays = is_expired_naive fromisoformat now a local e

      kept :
          (elim (get k t.alerts) [
            | none ↦ none
            | some v ↦ if not (expired v) then some v else none
          ])
          ≡ some a
      kept = ground (arith, stays)

first_where-none :
    (p : ActiveAlert → Bool) (xs : List ActiveAlert) → any p xs ≡ false → first_where p xs ≡ none
unfolding first_where
first_where-none p [] h = refl
first_where-none p (x ∷ xs) h = ground (arith, first_where-none p xs)

first_where_keep :
    (p q : ActiveAlert → Bool) (xs : List ActiveAlert)
    → ((a : ActiveAlert) → p a ≡ true → q a ≡ false)
    → any p (keep q xs) ≡ false
first_where_keep p q [] h = refl
first_where_keep p q (x ∷ xs) h = ground (arith, first_where_keep p q xs h, h x)

text_in-any-text_in :
    (tid : Text) (set tids : List Text)
    → text_in tid set ≡ true
    → text_in tid tids ≡ true
    → any (λ u. text_in u set) tids ≡ true
unfolding text_in
text_in-any-text_in tid set [] h e = ground arith
text_in-any-text_in tid set (u ∷ tids) h e = elim (Bool-cases (text_eq u tid)) [
  | inl same ↦ ground (arith, same, text_eq_iff u tid)
  | inr other ↦ ground (arith, other, text_in-any-text_in tid set tids h)
]

-- After a removal by VTEC tracks from a tracker with unique ids, no alert is found for a track of the
-- set, the alerts with no track in the set are still there in their order, and the count is the number
-- of alerts that went.
pub remove_by_vtec_tracks_lem :
    (track_set : List Text) (reason : Text) (t : AlertTracker) (tid : Text)
    → UniqueKeys t.alerts
    → text_in tid track_set ≡ true
    → (find_by_vtec_track tid (remove_by_vtec_tracks track_set reason t).0 ≡ none)
      × ((remove_by_vtec_tracks track_set reason t).0.alerts
          ≡ keep_items (λ a. not (any (λ tid. text_in tid track_set) (vtec_track_ids a))) t.alerts)
      × ((remove_by_vtec_tracks track_set reason t).1
          ≡ length (keep_items (has_track track_set) t.alerts))
unfolding remove_by_vtec_tracks find_by_vtec_track
remove_by_vtec_tracks_lem track_set reason t tid u wanted =
    let left =
      alerts-remove_where (has_track track_set) (λ removed. codes "remove-by-vtec:" ++ reason) t
        u in
    (
      ap (λ d. first_where (λ a. text_in tid (vtec_track_ids a)) (values d)) left
          ∙ (ap (first_where (λ a. text_in tid (vtec_track_ids a)))
                (values-keep_items (λ a. not (has_track track_set a)) t.alerts)
              ∙ first_where-none (λ a. text_in tid (vtec_track_ids a))
                  (keep (λ a. not (has_track track_set a)) (values t.alerts))
                  (first_where_keep (λ a. text_in tid (vtec_track_ids a))
                    (λ a. not (has_track track_set a)) (values t.alerts)
                    (λ a has.
                      unfold has_track in
                      rw (text_in-any-text_in tid track_set (vtec_track_ids a) wanted has) refl))),
      unfold has_track in left,
      unfold remove_where in sweep-count (has_track track_set) t.alerts t.alerts,
    )
