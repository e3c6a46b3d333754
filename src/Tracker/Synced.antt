-- ===== src/Tracker/Synced.antt =====
-- After operations that add no alert with repeated codes: each alert once, under its id, and the table written.
use seasonal_weather.Prelude.{
  ℕ, Bool, true, false, not, Option, none, some, List, [], ◌∷◌, ◌≡◌, refl, sym, ◌∙◌, arith,
  if◌then◌else◌, ltb, All, Text, Dict, get, put, has, values, UniqueKeys, UniqueKeys-put,
  UniqueKeys-pop, sweep, sweep-keep_items, sweep_zero, UniqueKeys-keep_items, All-keep_items,
  All-put, All-pop, All-get, Bool-cases, inl, inr,
}
use mathlib.Core.Path.{subst}
use seasonal_weather.Alert.{clean, Stamp, ActiveAlert}
use seasonal_weather.Tracker.{
  AlertTracker, fits_keys, all_fit, set_change_callback, emit_change, persist, persisted,
  without_shadowed, is_authoritative, is_shadowed, loc_set, keep_chronology, remove_shadowed,
  remove_where, remove_matching_source, add_or_update, remove, change_alert, aired, mark_aired,
  update_audio_path, update_script, remove_by_vtec_tracks, purge_expired,
}

-- an entry stands under its alert's id, and its alert repeats no VTEC line and no code
abbrev pub Keyed : Text × ActiveAlert → Type 0
Keyed item = (item.1.id ≡ item.0) × (fits_keys item.1 ≡ true)

abbrev pub IsKeyed : Dict ActiveAlert → Type 0
IsKeyed d = UniqueKeys d × All Keyed d

pub record IsSynced (t : AlertTracker) : Type 0 where
  pub unique : UniqueKeys t.alerts
  pub keyed : All Keyed t.alerts
  -- writing the table again would change nothing
  pub written : persisted t ≡ t.table

persist-IsSynced : (t : AlertTracker) → IsKeyed t.alerts → IsSynced (persist t)
unfolding persist
persist-IsSynced t (u, k) = record { unique = u; keyed = k; written = again t.table t.database_up }
  where
    again :
        (table : Option (List ActiveAlert)) (up : Bool)
        → persisted (record t {
          table = persisted (record t { table = table; database_up = up });
          database_up = up;
        })
          ≡ persisted (record t { table = table; database_up = up })
    again none up = unfold persisted in refl
    again (some rows) false = unfold persisted in refl
    again (some rows) true =
        unfold persisted in
        elim (Bool-cases (all_fit (values t.alerts))) [
          | inl fit ↦ simp (fit, persisted) refl
          | inr unfit ↦ simp (unfit, persisted) refl
        ]

emit_change-IsSynced :
    (reason : Text) (t : AlertTracker) → IsSynced t → IsSynced (emit_change reason t)
unfolding emit_change
emit_change-IsSynced reason t s = record {
  unique = s.unique;
  keyed = s.keyed;
  written = unfold persisted in s.written;
}

sweep-IsKeyed :
    (doomed : ActiveAlert → Bool) (d : Dict ActiveAlert) → IsKeyed d → IsKeyed (sweep doomed d d).0
sweep-IsKeyed doomed d (u, k) =
    let p : ActiveAlert → Bool = λ a. not (doomed a) in
    subst IsKeyed (sym (sweep-keep_items doomed d u))
      (UniqueKeys-keep_items p d u, All-keep_items Keyed p d k)

remove_shadowed-IsKeyed :
    (a : ActiveAlert) (t : AlertTracker) → IsKeyed t.alerts → IsKeyed (remove_shadowed a t).alerts
unfolding remove_shadowed without_shadowed
remove_shadowed-IsKeyed a t k = elim (Bool-cases (is_authoritative a)) [
  | inl whole ↦
      rw whole (sweep-IsKeyed (is_shadowed (clean a.code) (loc_set a.same_locs)) t.alerts k)
  | inr partial ↦ rw partial k
]

put-IsKeyed :
    (a : ActiveAlert) (d : Dict ActiveAlert)
    → fits_keys a ≡ true
    → IsKeyed d
    → IsKeyed (put a.id a d)
put-IsKeyed a d fit (u, k) = (UniqueKeys-put a.id a d u, All-put Keyed a.id a d (refl, fit) k)

fits_keys-keep_chronology :
    (old : Option ActiveAlert) (a : ActiveAlert) → fits_keys (keep_chronology old a) ≡ fits_keys a
unfolding keep_chronology fits_keys
fits_keys-keep_chronology none a = refl
fits_keys-keep_chronology (some p) a = refl

add_or_update-IsSynced :
    (a : ActiveAlert) (t : AlertTracker)
    → fits_keys a ≡ true
    → IsSynced t
    → IsSynced (add_or_update a t)
unfolding add_or_update
add_or_update-IsSynced a t fit s =
    let a' = keep_chronology (get a.id t.alerts) a in
    emit_change-IsSynced _ _ (
      persist-IsSynced _ (
        put-IsKeyed a' _ (fits_keys-keep_chronology (get a.id t.alerts) a ∙ fit)
          (remove_shadowed-IsKeyed a' t (s.unique, s.keyed))))

remove-IsSynced : (k : Text) (t : AlertTracker) → IsSynced t → IsSynced (remove k t).0
unfolding remove
remove-IsSynced k t s = elim (Bool-cases (has k t.alerts)) [
  | inl known ↦ simp known (
      emit_change-IsSynced _ _
        (persist-IsSynced _ (UniqueKeys-pop k t.alerts s.unique, All-pop Keyed k t.alerts s.keyed)))
  | inr new ↦ simp new s
]

change_alert-IsSynced :
    (k : Text) (change : ActiveAlert → ActiveAlert) (t : AlertTracker)
    → ((a : ActiveAlert) → ((change a).id ≡ a.id) × (fits_keys (change a) ≡ fits_keys a))
    → IsSynced t
    → IsSynced (change_alert k change t)
unfolding change_alert
change_alert-IsSynced k change t same s = go (get k t.alerts) refl
  where
    go : (found : Option ActiveAlert) → get k t.alerts ≡ found → IsSynced (change_alert k change t)
    go none e = rw (e, change_alert) s
    go (some a) e =
        rw (e, change_alert)
          (persist-IsSynced _ (
            UniqueKeys-put k (change a) t.alerts s.unique,
            All-put Keyed k (change a) t.alerts
                (
                  (same a).0 ∙ (All-get Keyed k t.alerts s.keyed e).0,
                  (same a).1 ∙ (All-get Keyed k t.alerts s.keyed e).1,
                )
                s.keyed,
          ))

remove_where-IsSynced :
    (doomed : ActiveAlert → Bool) (reason : ℕ → Text) (t : AlertTracker)
    → IsSynced t
    → IsSynced (remove_where doomed reason t).0
unfolding remove_where
remove_where-IsSynced doomed reason t s =
    elim (Bool-cases (ltb 0 (sweep doomed t.alerts t.alerts).1)) [
      | inl some_gone ↦ rw some_gone (
          emit_change-IsSynced _ _
            (persist-IsSynced _ (sweep-IsKeyed doomed t.alerts (s.unique, s.keyed))))
      | inr none_gone ↦ rw (none_gone, sweep_zero doomed t.alerts t.alerts (ground arith)) s
    ]

-- every call that changes a tracker after its start
pub data Op : Type 0 where
  listen : Bool → Op
  add : ActiveAlert → Op
  drop_id : Text → Op
  drop_source : Text → Text → List Text → Text → Op
  drop_tracks : List Text → Text → Op
  air : Text → Text → Op
  set_audio : Text → Text → Op
  set_script : Text → Text → Op
  purge : ℕ → Op

-- an alert that is added repeats no VTEC line and no code
unfoldable pub adds_fitting : Op → Bool
adds_fitting (listen installed) = true
adds_fitting (add a) = fits_keys a
adds_fitting (drop_id k) = true
adds_fitting (drop_source source code locs reason) = true
adds_fitting (drop_tracks tracks reason) = true
adds_fitting (air k now_iso) = true
adds_fitting (set_audio k path) = true
adds_fitting (set_script k text) = true
adds_fitting (purge now) = true

module _ (fromisoformat : Text → Option Stamp) where
  unfoldable pub apply : Op → AlertTracker → AlertTracker
  apply (listen installed) t = set_change_callback installed t
  apply (add a) t = add_or_update a t
  apply (drop_id k) t = (remove k t).0
  apply (drop_source source code locs reason) t =
      (remove_matching_source source code locs reason t).0
  apply (drop_tracks tracks reason) t = (remove_by_vtec_tracks tracks reason t).0
  apply (air k now_iso) t = mark_aired k now_iso t
  apply (set_audio k path) t = update_audio_path k path t
  apply (set_script k text) t = update_script k text t
  apply (purge now) t = (purge_expired fromisoformat now t).0

  unfoldable pub apply_all : List Op → AlertTracker → AlertTracker
  apply_all [] t = t
  apply_all (op ∷ ops) t = apply_all ops (apply op t)

  if_emit-IsSynced :
      (b : Bool) (reason : Text) (t : AlertTracker)
      → IsSynced t
      → IsSynced (if b then emit_change reason t else t)
  if_emit-IsSynced true reason t s = emit_change-IsSynced reason t s
  if_emit-IsSynced false reason t s = s

  apply-IsSynced :
      (op : Op) (t : AlertTracker) → adds_fitting op ≡ true → IsSynced t → IsSynced (apply op t)
  unfolding apply adds_fitting fits_keys set_change_callback remove_matching_source
      remove_by_vtec_tracks mark_aired update_audio_path update_script purge_expired
  apply-IsSynced (listen installed) t fit s = record {
    unique = s.unique;
    keyed = s.keyed;
    written = unfold persisted in s.written;
  }
  apply-IsSynced (add a) t fit s = add_or_update-IsSynced a t fit s
  apply-IsSynced (drop_id k) t fit s = remove-IsSynced k t s
  apply-IsSynced (drop_source source code locs reason) t fit s = remove_where-IsSynced _ _ t s
  apply-IsSynced (drop_tracks tracks reason) t fit s = remove_where-IsSynced _ _ t s
  apply-IsSynced (air k now_iso) t fit s =
      change_alert-IsSynced k (aired now_iso) t (λ a. unfold aired in (refl, refl)) s
  apply-IsSynced (set_audio k path) t fit s =
      if_emit-IsSynced (has k t.alerts) _ _ (change_alert-IsSynced k _ t (λ a. (refl, refl)) s)
  apply-IsSynced (set_script k text) t fit s =
      if_emit-IsSynced (has k t.alerts) _ _ (change_alert-IsSynced k _ t (λ a. (refl, refl)) s)
  apply-IsSynced (purge now) t fit s = remove_where-IsSynced _ _ t s

  -- From a tracker whose alerts stand once each under their ids and whose table is as `_persist` would
  -- write it, operations that add only alerts without repeated codes lead to such a tracker.
  pub apply_all-IsSynced :
      (ops : List Op) (t : AlertTracker)
      → All (λ op. adds_fitting op ≡ true) ops
      → IsSynced t
      → IsSynced (apply_all ops t)
  unfolding apply_all
  apply_all-IsSynced [] t fits s = s
  apply_all-IsSynced (op ∷ ops) t (fit, fits) s =
      apply_all-IsSynced ops (apply op t) fits (apply-IsSynced op t fit s)
