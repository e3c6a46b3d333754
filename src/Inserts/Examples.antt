-- ===== src/Inserts/Examples.antt =====
-- An announcement that airs twice, and the theorems at it.
use seasonal_weather.Prelude.{◌≤◌, true, false, none, some, List, [], ◌∷◌, codes, All, length, pos}
use seasonal_weather.Inserts.{CycleInsert, active, list_due}
use seasonal_weather.Inserts.Due.{IsDue, list_due-IsDue}

abbrev road_closed : CycleInsert
road_closed = record {
  insert_id = codes "i1";
  kind = codes "text";
  title = codes "Road";
  text = some (codes "Route 1 is closed.");
  audio_path = some (codes "i1.wav");
  audio_asset_id = none;
  placement = codes "after_time";
  start_after = none;
  expires_at = codes "2026-03-26";
  repeat_mode = codes "rotations";
  repeat_every_rotations = pos 3;
  max_airings = pos 2;
  defer_during_active_alerts = true;
  status = active;
  actor = codes "ops";
  created_at = codes "2026-03-24";
  updated_at = codes "2026-03-24";
  last_aired_at = none;
  airing_count = 1;
  last_aired_rotation = some 4;
}

abbrev table : List CycleInsert
table = road_closed ∷ []

list_due-IsDue_example :
    All
      (IsDue (codes "after_time") 7 (codes "2026-03-25") false)
      (list_due (codes "after_time") 7 (codes "2026-03-25") false (pos 3) table).0
    × (length (list_due (codes "after_time") 7 (codes "2026-03-25") false (pos 3) table).0 ≤ 10)
list_due-IsDue_example =
    list_due-IsDue (codes "after_time") 7 (codes "2026-03-25") false (pos 3) table
