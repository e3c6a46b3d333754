-- ===== src/Vtec/Toneout/Tracks.antt =====
-- The tracks of a policy, and the alerts of the tracker that they name.
use seasonal_weather.Prelude.{
  ◌++◌, arith, text_eq_iff, Bool, true, ◌&&◌, ◌||◌, Option, none, some, List, [], ◌∷◌, ◌≡◌, refl,
  sym, ◌∙◌, ap, any, any-keep, keep, map, Text, codes, text_eq, text_in, UniqueKeys,
}
use seasonal_weather.Same.Chunks.{text_in-distinct}
use seasonal_weather.Tracker.{AlertTracker, find_by_vtec_track, remove_by_vtec_tracks}
use seasonal_weather.Tracker.Expiry.{remove_by_vtec_tracks_lem}
use seasonal_weather.Alert.{vtec_track_id}
use seasonal_weather.Vtec.{ParsedVtec, track_id, parse_vtec_list, match_vtec, squeeze}
use seasonal_weather.Vtec.Agreement.{vtec_track_id-parse_vtec}
use seasonal_weather.Vtec.Toneout.{ToneoutPolicy, tracks_of, cancel_tracks_of, toneout_policy}
use seasonal_weather.Vtec.Toneout.Decision.{toneout_policy-Decides}

-- a line that ends the track
abbrev pub cancels : Text → ParsedVtec → Bool
cancels tid v = text_in v.action (codes "CAN" ∷ codes "EXP" ∷ []) && text_eq (track_id v) tid

text_in-map-track_id :
    (tid : Text) (vs : List ParsedVtec)
    → text_in tid (map track_id vs) ≡ any (λ v. text_eq (track_id v) tid) vs
unfolding text_in
text_in-map-track_id tid [] = refl
text_in-map-track_id tid (v ∷ vs) =
    ap (λ b. text_eq (track_id v) tid || b) (text_in-map-track_id tid vs)

-- the cancelled tracks are those of the lines with CAN or EXP
text_in-cancel_tracks_of :
    (tid : Text) (vs : List ParsedVtec) → text_in tid (cancel_tracks_of vs) ≡ any (cancels tid) vs
unfolding cancel_tracks_of tracks_of
text_in-cancel_tracks_of tid vs =
    let ends : ParsedVtec → Bool = λ v. text_in v.action (codes "CAN" ∷ codes "EXP" ∷ []) in
    text_in-distinct tid (map track_id (keep ends vs))
    ∙ (text_in-map-track_id tid (keep ends vs) ∙ any-keep ends (λ v. text_eq (track_id v) tid) vs)

any_middle :
    (p : ParsedVtec → Bool) (before after : List ParsedVtec) (v : ParsedVtec)
    → p v ≡ true
    → any p (before ++ v ∷ after) ≡ true
any_middle p [] after v h = ground (arith, h)
any_middle p (w ∷ before) after v h = ground (arith, any_middle p before after v h)

some_inj : {x y : Text} → some x ≡ some y → x ≡ y
some_inj e = cc

-- Where a parsed line of a product has the action CAN or EXP and stands, white space apart, at the start of its
-- text, and the tracker has unique ids: after the removal of the tracks that the product's policy cancels, no alert
-- is found under the track that the tracker itself reads from that text.
pub cancelled_track_removed :
    (vtec_strings : List Text) (policy : ToneoutPolicy) (reason : Text) (t : AlertTracker)
    (before after : List ParsedVtec) (v : ParsedVtec) (tid : Text)
    → toneout_policy vtec_strings ≡ some policy
    → parse_vtec_list vtec_strings ≡ before ++ v ∷ after
    → text_in v.action (codes "CAN" ∷ codes "EXP" ∷ []) ≡ true
    → match_vtec v.raw (squeeze v.raw) ≡ some v
    → vtec_track_id v.raw ≡ some tid
    → UniqueKeys t.alerts
    → find_by_vtec_track tid (remove_by_vtec_tracks policy.cancel_tracks reason t).0 ≡ none
cancelled_track_removed vtec_strings policy reason t before after v tid decided parsed ends whole
      read u =
    let (found, returns, code, mode, cancelled, continued) = toneout_policy-Decides vtec_strings in
    let same : track_id v ≡ tid =
      some_inj (sym (vtec_track_id-parse_vtec v.raw v whole).1 ∙ read) in
    let ended : any (cancels tid) (parse_vtec_list vtec_strings) ≡ true =
      ap (any (cancels tid)) parsed
      ∙ any_middle (cancels tid) before after v
          (ground (arith, ends, (text_eq_iff (track_id v) tid).1 same)) in
    (remove_by_vtec_tracks_lem policy.cancel_tracks reason t tid u (
      ap (text_in tid) (ap (cancels_of policy) (sym decided ∙ returns) ∙ cancelled)
      ∙ (text_in-cancel_tracks_of tid (parse_vtec_list vtec_strings) ∙ ended))).0
  where
    cancels_of : ToneoutPolicy → Option ToneoutPolicy → List Text
    cancels_of default none = default.cancel_tracks
    cancels_of default (some p) = p.cancel_tracks
