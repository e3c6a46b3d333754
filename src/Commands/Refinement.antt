-- ===== src/Commands/Refinement.antt =====
-- What each operation of the command store promises: the table alone, with an answer to each request.
use seasonal_weather.Prelude.{
  Option, none, some, ◌≡◌, refl, sym, ◌∙◌, ap, inl, inr, if◌then◌else◌, Text, codes, text_eq,
  text_eq_iff, text_eq_refl, Dict, get, put, get-put, Bool-cases,
}
use seasonal_weather.Commands.{
  CommandRecord, CommandStore, Outcome, accepted, replayed, found, conflict, not_found, Request,
  row_by_key, insert_row, merge_row, remember, find_by_key, find_by_id, announce, save, counted,
  new_record, is_same_request, create, replay, create_or_replay, mark, started, succeeded_with,
  failed_with, get_command,
}
use mathlib.Core.Path.{subst}
use seasonal_weather.Commands.Table.{IsTable-get, IsTable-put_new}
use seasonal_weather.Commands.Cache.{
  IsCache, remember-IsCache, find_by_key-IsCache, find_by_id-IsCache, save-IsCache, IsTable-id,
}

abbrev pub Rows : Type 0
Rows = Dict CommandRecord

-- a handler finds a record, changes it and stores it
unfoldable pub table_mark : (CommandRecord → CommandRecord) → Text → Rows → Outcome × Rows
table_mark change id rows = elim (get id rows) [
  | none ↦ (not_found, rows)
  | some r ↦ (found (change r), put r.command_id (change r) rows)
]

unfoldable pub table_get : Text → Rows → Outcome × Rows
table_get id rows = elim (get id rows) [ none ↦ (not_found, rows) | some r ↦ (found r, rows) ]

-- one answer of the store with the state after it, against those of the table
abbrev pub Refines : Outcome × CommandStore → Outcome × Rows → Type 0
Refines served promised = (served.0 ≡ promised.0) × IsCache served.1 promised.1

-- a change of a record that leaves the columns which an update does not write
pub record IsUpdate (change : CommandRecord → CommandRecord) : Type 0 where
  pub id : (r : CommandRecord) → (change r).command_id ≡ r.command_id
  pub key : (r : CommandRecord) → (change r).idempotency_key ≡ r.idempotency_key
  pub hash : (r : CommandRecord) → (change r).payload_hash ≡ r.payload_hash
  pub type : (r : CommandRecord) → (change r).command_type ≡ r.command_type
  pub merged : (r : CommandRecord) → merge_row (change r) r ≡ change r

pub started-IsUpdate : (now : Text) → IsUpdate (started now)
unfolding started merge_row
started-IsUpdate now = record {
  id = λ r. refl;
  key = λ r. refl;
  hash = λ r. refl;
  type = λ r. refl;
  merged = λ r. refl;
}

pub succeeded_with-IsUpdate : (now result : Text) → IsUpdate (succeeded_with now result)
unfolding succeeded_with merge_row
succeeded_with-IsUpdate now result = record {
  id = λ r. refl;
  key = λ r. refl;
  hash = λ r. refl;
  type = λ r. refl;
  merged = λ r. refl;
}

pub failed_with-IsUpdate : (now error : Text) → IsUpdate (failed_with now error)
unfolding failed_with merge_row
failed_with-IsUpdate now error = record {
  id = λ r. refl;
  key = λ r. refl;
  hash = λ r. refl;
  type = λ r. refl;
  merged = λ r. refl;
}

pub counted-IsUpdate : IsUpdate counted
unfolding counted merge_row
counted-IsUpdate = record {
  id = λ r. refl;
  key = λ r. refl;
  hash = λ r. refl;
  type = λ r. refl;
  merged = λ r. refl;
}

-- storing such a change keeps memory and table together
changed-IsCache :
    (event_type now : Text) (detail : Option Text) (change : CommandRecord → CommandRecord)
    (r : CommandRecord) (s : CommandStore) (rows : Rows)
    → IsUpdate change
    → get r.command_id rows ≡ some r
    → IsCache s rows
    → IsCache (save event_type now detail (change r) s) (put r.command_id (change r) rows)
changed-IsCache event_type now detail change r s rows u held c =
    subst (λ id. IsCache (save event_type now detail (change r) s) (put id (change r) rows))
      (u.id r)
      (save-IsCache event_type now detail (change r) r s rows
        (ap (λ id. get id rows) (u.id r) ∙ held) (u.merged r) (u.key r) c)

pub mark-Refines :
    (event_type now : Text) (detail : Option Text) (change : CommandRecord → CommandRecord)
    (id : Text) (s : CommandStore) (rows : Rows)
    → IsUpdate change
    → IsCache s rows
    → Refines (mark event_type detail change now id s) (table_mark change id rows)
unfolding mark table_mark
mark-Refines event_type now detail change id s rows u c = go (get id rows) refl
  where
    found_row : (find_by_id id s).0 ≡ get id rows
    found_row = (find_by_id-IsCache id s rows c).0

    go :
        (row : Option CommandRecord)
        → get id rows ≡ row
        → Refines (mark event_type detail change now id s) (table_mark change id rows)
    go none e = rw (found_row ∙ e, e, mark, table_mark) (refl, (find_by_id-IsCache id s rows c).1)
    go (some r) e =
        rw (found_row ∙ e, e, mark, table_mark)
          (
            refl,
            changed-IsCache event_type now detail change r _ rows u
                (ap (λ i. get i rows) (IsTable-id rows id r c.table e) ∙ e)
                (find_by_id-IsCache id s rows c).1,
          )

pub get_command-Refines :
    (id : Text) (s : CommandStore) (rows : Rows)
    → IsCache s rows
    → Refines (get_command id s) (table_get id rows)
unfolding get_command table_get
get_command-Refines id s rows c = go (get id rows) refl
  where
    found_row : (find_by_id id s).0 ≡ get id rows
    found_row = (find_by_id-IsCache id s rows c).0

    go :
        (row : Option CommandRecord)
        → get id rows ≡ row
        → Refines (get_command id s) (table_get id rows)
    go none e =
        rw (found_row ∙ e, e, get_command, table_get) (refl, (find_by_id-IsCache id s rows c).1)
    go (some r) e =
        rw (found_row ∙ e, e, get_command, table_get) (refl, (find_by_id-IsCache id s rows c).1)

-- the insertion of a row whose id is new
inserted-IsCache :
    (r : CommandRecord) (s : CommandStore) (rows : Rows)
    → get r.command_id rows ≡ none
    → row_by_key r.idempotency_key rows ≡ none
    → IsCache s rows
    → IsCache (record s { repo = some (put r.command_id r rows) }) (put r.command_id r rows)
inserted-IsCache r s rows new absent c = record {
  repo = refl;
  table = IsTable-put_new r rows c.table new absent;
  cached = λ id. elim (c.cached id) [
    | inl n ↦ inl n
    | inr agree ↦ elim (Bool-cases (text_eq r.command_id id)) [
      | inl hit ↦
          inl (agree ∙ (ap (λ i. get i rows) (sym ((text_eq_iff r.command_id id).0 hit)) ∙ new))
      | inr miss ↦ inr (agree ∙ sym (get-put id r.command_id r rows ∙ rw miss refl))
    ]
  ];
  indexed = c.indexed;
}

module _ (sha256 : Text → Text) where
  unfoldable pub table_submit : Request → Rows → Outcome × Rows
  table_submit q rows = elim (row_by_key q.idempotency_key rows) [
    | none ↦ (accepted (new_record sha256 q), put q.new_id (new_record sha256 q) rows)
    | some r ↦
        if is_same_request sha256 q r
        then (replayed (counted r), put r.command_id (counted r) rows)
        else (conflict, rows)
  ]

  -- a new id is new
  create-Refines :
      (q : Request) (s : CommandStore) (rows : Rows)
      → row_by_key q.idempotency_key rows ≡ none
      → get q.new_id rows ≡ none
      → IsCache s rows
      → Refines
          (create sha256 q s)
          (accepted (new_record sha256 q), put q.new_id (new_record sha256 q) rows)
  unfolding create new_record insert_row announce remember
  create-Refines q s rows absent new c =
      rw (c.repo, create, insert_row, absent, new)
        (
          refl,
          record { repo = refl; table = kept.table; cached = kept.cached; indexed = kept.indexed },
        )
    where
      r : CommandRecord
      r = new_record sha256 q

      kept :
          IsCache
            (remember r (record s { repo = some (put q.new_id r rows) }))
            (put q.new_id r rows)
      kept =
          remember-IsCache r _ (put q.new_id r rows)
            (get-put q.new_id q.new_id r rows ∙ rw (text_eq_refl q.new_id) refl)
            (inserted-IsCache r s rows new absent c)

  replay-Refines :
      (q : Request) (r : CommandRecord) (s : CommandStore) (rows : Rows)
      → get r.command_id rows ≡ some r
      → IsCache s rows
      → Refines (replay sha256 q r s) (
          if is_same_request sha256 q r
          then (replayed (counted r), put r.command_id (counted r) rows)
          else (conflict, rows))
  unfolding replay
  replay-Refines q r s rows held c = elim (Bool-cases (is_same_request sha256 q r)) [
    | inl same ↦
        rw (same, replay)
          (
            refl,
            changed-IsCache (codes "command.replayed") q.now none counted r s rows counted-IsUpdate
                held c,
          )
    | inr other ↦ rw (other, replay) (refl, c)
  ]

  pub create_or_replay-Refines :
      (q : Request) (s : CommandStore) (rows : Rows)
      → get q.new_id rows ≡ none
      → IsCache s rows
      → Refines (create_or_replay sha256 q s) (table_submit q rows)
  unfolding create_or_replay table_submit
  create_or_replay-Refines q s rows new c = go (row_by_key q.idempotency_key rows) refl
    where
      known : (find_by_key q.idempotency_key s).0 ≡ row_by_key q.idempotency_key rows
      known = (find_by_key-IsCache q.idempotency_key s rows c).0

      kept : IsCache (find_by_key q.idempotency_key s).1 rows
      kept = (find_by_key-IsCache q.idempotency_key s rows c).1

      go :
          (row : Option CommandRecord)
          → row_by_key q.idempotency_key rows ≡ row
          → Refines (create_or_replay sha256 q s) (table_submit q rows)
      go none e =
          rw (known ∙ e, e, create_or_replay, table_submit) (create-Refines q _ rows e new kept)
      go (some r) e =
          rw (known ∙ e, e, create_or_replay, table_submit)
            (replay-Refines q r _ rows (IsTable-get rows q.idempotency_key r c.table e).0 kept)
