-- ===== src/Vtec/Toneout/Examples.antt =====
-- VTEC lines of a product, and the theorems at them.
use seasonal_weather.Prelude.{
  ℕ, ◌≡◌, refl, Bool, true, false, Option, none, some, List, [], ◌∷◌, Text, codes, any, is_space,
  is_upper, is_digit, UniqueKeys, get, text_in,
}
use seasonal_weather.Alert.{ActiveAlert, matches_at, vtec_track_id}
use seasonal_weather.Tracker.{AlertTracker, new_tracker, find_by_vtec_track, remove_by_vtec_tracks}
use seasonal_weather.Vtec.{
  ParsedVtec, parse_vtec, parse_vtec_list, track_id, match_vtec, squeeze, vtec_head, read_times,
}
use seasonal_weather.Vtec.Codes.{lookup_same_code}
use seasonal_weather.Vtec.Agreement.{vtec_track_id-parse_vtec}
use seasonal_weather.Vtec.Toneout.{toneout_policy}
use seasonal_weather.Vtec.Toneout.Decision.{Decides, deciding_code, toneout_policy-Decides}
use seasonal_weather.Vtec.Toneout.Tracks.{cancelled_track_removed}

abbrev new_tornado : Text
new_tornado = codes "/O.NEW.KLWX.TO.W.0012.260325T1400Z-260325T1800Z/"

abbrev end_of_flood : Text
end_of_flood = codes "/O.CAN.KLWX.CF.Y.0004.260325T1400Z-260325T1800Z/"

abbrev product : List Text
product = end_of_flood ∷ codes "no line" ∷ new_tornado ∷ []

abbrev tornado : ParsedVtec
tornado = record {
  kind = codes "O";
  action = codes "NEW";
  office = codes "KLWX";
  phenomena = codes "TO";
  significance = codes "W";
  etn = codes "0012";
  start = codes "260325T1400Z";
  end = codes "260325T1800Z";
  raw = new_tornado;
}

tornado_read : match_vtec new_tornado (squeeze new_tornado) ≡ some tornado
unfolding match_vtec read_times seasonal_weather.Vtec.time_length matches_at is_space is_digit
    seasonal_weather.Vtec.short_date seasonal_weather.Vtec.clock_time vtec_head is_upper
    seasonal_weather.Alert.is_alnum seasonal_weather.Vtec.head_fields
tornado_read = refl

vtec_track_id-parse_vtec_example :
    (parse_vtec new_tornado ≡ some tornado) × (vtec_track_id new_tornado ≡ some (track_id tornado))
vtec_track_id-parse_vtec_example = vtec_track_id-parse_vtec new_tornado tornado tornado_read

toneout_policy-Decides_example :
    Decides
      (parse_vtec_list product)
      (deciding_code (parse_vtec_list product))
      (toneout_policy product)
toneout_policy-Decides_example = toneout_policy-Decides product

abbrev flood_track : Text
flood_track = codes "KLWX.CF.Y.0004"

abbrev flood_end : ParsedVtec
flood_end = record {
  kind = codes "O";
  action = codes "CAN";
  office = codes "KLWX";
  phenomena = codes "CF";
  significance = codes "Y";
  etn = codes "0004";
  start = codes "260325T1400Z";
  end = codes "260325T1800Z";
  raw = end_of_flood;
}

flood_end_read : match_vtec end_of_flood (squeeze end_of_flood) ≡ some flood_end
unfolding match_vtec read_times seasonal_weather.Vtec.time_length matches_at is_space is_digit
    seasonal_weather.Vtec.short_date seasonal_weather.Vtec.clock_time vtec_head is_upper
    seasonal_weather.Alert.is_alnum seasonal_weather.Vtec.head_fields
flood_end_read = refl

flood_parsed : parse_vtec_list (end_of_flood ∷ []) ≡ flood_end ∷ []
unfolding parse_vtec_list seasonal_weather.Vtec.parse_from parse_vtec
    seasonal_weather.Vtec.search_parse is_space match_vtec read_times
    seasonal_weather.Vtec.time_length matches_at is_digit seasonal_weather.Vtec.short_date
    seasonal_weather.Vtec.clock_time vtec_head is_upper seasonal_weather.Alert.is_alnum
    seasonal_weather.Prelude.text_in seasonal_weather.Prelude.text_eq
    seasonal_weather.Vtec.head_fields seasonal_weather.Vtec.track_action track_id
flood_parsed = refl

flood_track_read : vtec_track_id end_of_flood ≡ some flood_track
unfolding track_id
flood_track_read = (vtec_track_id-parse_vtec end_of_flood flood_end flood_end_read).1

-- the alert of the flood that ends
abbrev flood : ActiveAlert
flood = record {
  id = codes "NWWS:2";
  source = codes "NWWS";
  event = codes "Coastal Flood Advisory";
  code = codes "CFW";
  vtec = end_of_flood ∷ [];
  headline = codes "Coastal Flood Advisory";
  script_text = [];
  audio_path = none;
  expires = codes "2026-03-25T18:00:00Z";
  issued = codes "2026-03-25T14:00:00Z";
  same_locs = codes "024033" ∷ [];
  cycle_only = false;
  watch_number = none;
  first_aired = none;
  last_aired = none;
  airing_count = 0;
}

abbrev flooded : AlertTracker
flooded = record (new_tracker (some []) true) { alerts = (flood.id, flood) ∷ [] }

flood_is_found : find_by_vtec_track flood_track flooded ≡ some flood
unfolding find_by_vtec_track text_in seasonal_weather.Tracker.first_where
    seasonal_weather.Alert.vtec_track_ids seasonal_weather.Alert.track_ids vtec_track_id
    seasonal_weather.Alert.search_vtec is_space matches_at seasonal_weather.Alert.vtec_pattern
    is_upper seasonal_weather.Alert.is_alnum is_digit
flood_is_found = refl

can_ends : text_in (codes "CAN") (codes "CAN" ∷ codes "EXP" ∷ []) ≡ true
unfolding text_in
can_ends = refl

flooded-UniqueKeys : UniqueKeys flooded.alerts
unfolding get
flooded-UniqueKeys = (refl, tt)

cancelled_track_removed_example :
    find_by_vtec_track flood_track
      (remove_by_vtec_tracks
        (toneout_policy-Decides (end_of_flood ∷ [])).0.cancel_tracks
        (codes "CAN")
        flooded).0
    ≡ none
cancelled_track_removed_example =
    cancelled_track_removed (end_of_flood ∷ []) (toneout_policy-Decides (end_of_flood ∷ [])).0
      (codes "CAN") flooded [] [] flood_end flood_track
      (toneout_policy-Decides (end_of_flood ∷ [])).1 flood_parsed can_ends flood_end_read
      flood_track_read flooded-UniqueKeys

-- a lake effect snow warning gets the code of a law enforcement warning
lake_effect_code : lookup_same_code (codes "LE") (codes "W") ≡ some (codes "LEW")
unfolding lookup_same_code get seasonal_weather.Vtec.Codes.phen_sig_to_same
    seasonal_weather.Prelude.upper
lake_effect_code = refl
