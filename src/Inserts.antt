-- ===== src/Inserts.antt =====
-- seasonalweather/database/inserts.py: the table of announcements that the operator schedules for the cycle. The
-- texts and times are what `_row_to_dict` gives; the duration and the metadata, which no operation reads, are left out.
pub mod Due
mod Examples
use seasonal_weather.Prelude.{
  ℕ, zero, suc, ◌+◌, ◌≤◌, Bool, true, false, not, ◌&&◌, ◌||◌, Option, none, some, List, [], ◌∷◌,
  ◌++◌, if◌then◌else◌, ltb, leb, ◌==◌, is_some, length, take, keep, map, min, max, Text, codes,
  text_eq, text_le, sort_by, ℤ, pos, negsuc, at_least, nonempty,
}

pub record CycleInsert : Type 0 where
  pub insert_id : Text
  pub kind : Text
  pub title : Text
  pub text : Option Text
  pub audio_path : Option Text
  pub audio_asset_id : Option Text
  pub placement : Text
  pub start_after : Option Text
  pub expires_at : Text
  pub repeat_mode : Text
  pub repeat_every_rotations : ℤ
  pub max_airings : ℤ
  pub defer_during_active_alerts : Bool
  pub status : Text
  pub actor : Text
  pub created_at : Text
  pub updated_at : Text
  pub last_aired_at : Option Text
  pub airing_count : ℕ
  pub last_aired_rotation : Option ℕ

abbrev pub active : Text
active = codes "active"

pub is_active : CycleInsert → Bool
is_active r = text_eq r.status active

-- `x or y`
pub text_or : Text → Text → Text
text_or [] default = default
text_or (c ∷ s) default = c ∷ s

-- `str(x or "") or None`
pub present : Option Text → Option Text
present none = none
present (some []) = none
present (some (c ∷ s)) = some (c ∷ s)

-- `int(x or 1)`
pub int_or_one : ℤ → ℤ
int_or_one (pos zero) = pos 1
int_or_one (pos (suc n)) = pos (suc n)
int_or_one (negsuc n) = negsuc n

-- the values that are written
pub stored : CycleInsert → CycleInsert
stored r = record r {
  text = present r.text;
  audio_path = present r.audio_path;
  audio_asset_id = present r.audio_asset_id;
  placement = text_or r.placement (codes "after_time");
  start_after = present r.start_after;
  repeat_mode = text_or r.repeat_mode (codes "once");
  repeat_every_rotations = int_or_one r.repeat_every_rotations;
  max_airings = int_or_one r.max_airings;
  status = text_or r.status active;
  last_aired_at = present r.last_aired_at;
}

pub get_insert : Text → List CycleInsert → Option CycleInsert
get_insert id [] = none
get_insert id (r ∷ rows) =
    let later = get_insert id rows in if text_eq r.insert_id id then some r else later

-- `UPDATE ... WHERE insert_id = ?`
pub update_where :
    (CycleInsert → Bool) → (CycleInsert → CycleInsert) → List CycleInsert → List CycleInsert
update_where p change [] = []
update_where p change (r ∷ rows) = (if p r then change r else r) ∷ update_where p change rows

-- a conflict keeps the time of creation
pub upsert_insert : CycleInsert → List CycleInsert → List CycleInsert
upsert_insert new rows = elim (get_insert new.insert_id rows) [
  | none ↦ rows ++ stored new ∷ []
  | some old ↦
      update_where (λ r. text_eq r.insert_id new.insert_id)
        (λ r. record (stored new) { created_at = r.created_at }) rows
]

-- `ORDER BY created_at, insert_id`
pub created_le : CycleInsert → CycleInsert → Bool
created_le r s =
    if text_eq r.created_at s.created_at
    then text_le r.insert_id s.insert_id
    else text_le r.created_at s.created_at

-- `max(1, min(limit, most))`
pub clamp_limit : ℕ → ℤ → ℕ
clamp_limit most (pos n) = max 1 (min n most)
clamp_limit most (negsuc n) = 1

pub list_inserts : Bool → ℤ → List CycleInsert → List CycleInsert
list_inserts include_inactive limit rows =
    take (clamp_limit 500 limit)
      (keep (λ r. include_inactive || is_active r) (sort_by (λ r s. created_le s r) rows))

pub expire_due : Text → List CycleInsert → List CycleInsert
expire_due now rows =
    update_where (λ r. is_active r && text_le r.expires_at now)
      (λ r. record r { status = codes "expired"; updated_at = now }) rows

-- `airing_count < max_airings` of the query
pub is_below : ℕ → ℤ → Bool
is_below n (pos m) = ltb n m
is_below n (negsuc m) = false

pub has_started : Text → Option Text → Bool
has_started now none = true
has_started now (some start) = text_le start now

-- the `WHERE` of `list_due`
pub is_selected : Text → Text → Bool → CycleInsert → Bool
is_selected placement now active_alert_focus r =
    is_active r
    && (text_eq r.placement placement
        && (has_started now r.start_after
            && (not (text_le r.expires_at now)
                && (is_below r.airing_count r.max_airings
                    && (is_some r.audio_path
                        && (not active_alert_focus || not r.defer_during_active_alerts))))))

pub every_due : ℕ → ℕ → Option ℕ → Bool
every_due every rotation_count none = true
every_due every rotation_count (some last) = leb (last + every) rotation_count

pub rotation_due : ℕ → CycleInsert → Bool
rotation_due rotation_count r =
    if leb (at_least 1 r.max_airings) r.airing_count
    then false
    else if text_eq (text_or r.repeat_mode (codes "once")) (codes "once")
    then r.airing_count == 0
    else every_due (at_least 1 r.repeat_every_rotations) rotation_count r.last_aired_rotation

pub list_due : Text → ℕ → Text → Bool → ℤ → List CycleInsert → List CycleInsert × List CycleInsert
list_due placement rotation_count now active_alert_focus limit rows =
    let rows' = expire_due now rows in
    let selected =
      take 50 (keep (is_selected placement now active_alert_focus) (sort_by created_le rows')) in
    (take (clamp_limit 10 limit) (keep (rotation_due rotation_count) selected), rows')

pub aired : Text → ℕ → CycleInsert → CycleInsert → CycleInsert
aired aired_at rotation_count row r = record r {
  airing_count = suc row.airing_count;
  last_aired_at = some aired_at;
  last_aired_rotation = some rotation_count;
  status =
      if leb (at_least 1 row.max_airings) (suc row.airing_count)
      then codes "completed"
      else text_or row.status active;
  updated_at = aired_at;
}

pub mark_aired : Text → Text → ℕ → List CycleInsert → Option CycleInsert × List CycleInsert
mark_aired id aired_at rotation_count rows = elim (get_insert id rows) [
  | none ↦ (none, rows)
  | some row ↦
      (let rows' =
          update_where (λ r. text_eq r.insert_id id) (aired aired_at rotation_count row) rows in
        (get_insert id rows', rows'))
]

pub cancel_insert : Text → Text → List CycleInsert → Option CycleInsert × List CycleInsert
cancel_insert id updated_at rows = elim (get_insert id rows) [
  | none ↦ (none, rows)
  | some row ↦
      (let rows' =
          update_where (λ r. text_eq r.insert_id id && is_active r)
            (λ r. record r { status = codes "cancelled"; updated_at = updated_at }) rows in
        (get_insert id rows', rows'))
]
