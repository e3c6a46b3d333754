-- ===== src/Commands.antt =====
-- seasonalweather/api/commands.py and database/commands.py: the commands that clients submit, in memory
-- and in their table. A payload is its canonical JSON text, which is what the code hashes.
pub mod Broker
pub mod Table
pub mod Cache
pub mod Refinement
pub mod Runs
pub mod Idempotency
mod Examples
use seasonal_weather.Prelude.{
  ℕ, suc, Bool, true, false, not, ◌&&◌, ◌||◌, Option, none, some, List, [], ◌∷◌, ◌++◌,
  if◌then◌else◌, is_some, Text, codes, text_eq, text_le, Dict, get, put, has, values, keep,
}
use seasonal_weather.Commands.Broker.{Event, EventBroker, new_broker, publish}

pub data CommandStatus : Type 0 where
  pending : CommandStatus
  running : CommandStatus
  succeeded : CommandStatus
  failed : CommandStatus

pub record CommandRecord : Type 0 where
  pub command_id : Text
  pub command_type : Text
  pub status : CommandStatus
  pub accepted_at : Text
  pub idempotency_key : Text
  pub actor : Text
  pub payload_hash : Text
  pub payload : Text
  pub request_id : Text
  pub started_at : Option Text
  pub finished_at : Option Text
  pub idempotent_replay_count : ℕ
  pub result : Option Text
  pub error : Option Text

-- the table, by the primary key
pub row_by_key : Text → Dict CommandRecord → Option CommandRecord
row_by_key key [] = none
row_by_key key ((id, row) ∷ rows) =
    let later = row_by_key key rows in if text_eq row.idempotency_key key then some row else later

-- `INSERT`: none is the error of a key that is taken
pub insert_row : CommandRecord → Dict CommandRecord → Option (Dict CommandRecord)
insert_row r rows =
    if has r.command_id rows || is_some (row_by_key r.idempotency_key rows)
    then none
    else some (put r.command_id r rows)

-- the columns that `UPDATE` sets
pub merge_row : CommandRecord → CommandRecord → CommandRecord
merge_row r row = record row {
  status = r.status;
  started_at = r.started_at;
  finished_at = r.finished_at;
  idempotent_replay_count = r.idempotent_replay_count;
  result = r.result;
  error = r.error;
}

pub update_row : CommandRecord → Dict CommandRecord → Dict CommandRecord
update_row r rows = elim (get r.command_id rows) [
  | none ↦ rows
  | some row ↦ put r.command_id (merge_row r row) rows
]

-- `DELETE ... status IN ('succeeded', 'failed') AND COALESCE(finished_at, accepted_at) < ?`
pub is_terminal : CommandStatus → Bool
is_terminal pending = false
is_terminal running = false
is_terminal succeeded = true
is_terminal failed = true

pub ended_at : CommandRecord → Text
ended_at r = elim r.finished_at [ none ↦ r.accepted_at | some at ↦ at ]

pub prune_terminal_before : Text → Dict CommandRecord → Dict CommandRecord
prune_terminal_before cutoff rows =
    keep
      (λ (item : Text × CommandRecord).
        not (is_terminal item.1.status && not (text_le cutoff (ended_at item.1))))
      rows

pub record CommandStore : Type 0 where
  pub broker : EventBroker
  pub by_id : Dict CommandRecord
  pub by_key : Dict Text
  pub repo : Option (Dict CommandRecord)

pub new_store : Option (Dict CommandRecord) → CommandStore
new_store repo = record { broker = new_broker; by_id = []; by_key = []; repo = repo }

-- what a call returns or raises
pub data Outcome : Type 0 where
  accepted : CommandRecord → Outcome
  replayed : CommandRecord → Outcome
  found : CommandRecord → Outcome
  conflict : Outcome
  not_found : Outcome
  integrity_error : Outcome

-- `_persist_record` of a record that is there already
pub persist_update : CommandRecord → CommandStore → CommandStore
persist_update r s = record s {
  repo = elim s.repo [ none ↦ none | some rows ↦ some (update_row r rows) ];
}

pub remember : CommandRecord → CommandStore → CommandStore
remember r s = record s {
  by_id = put r.command_id r s.by_id;
  by_key = put r.idempotency_key r.command_id s.by_key;
}

-- look a row up where memory has nothing, and remember it
pub from_repo :
    (Dict CommandRecord → Option CommandRecord) → CommandStore → Option CommandRecord × CommandStore
from_repo query s = elim s.repo [
  | none ↦ (none, s)
  | some rows ↦ elim (query rows) [ none ↦ (none, s) | some row ↦ (some row, remember row s) ]
]

-- the command under an idempotency key; a key of the index always has its record
pub find_by_key : Text → CommandStore → Option CommandRecord × CommandStore
find_by_key key s = elim (get key s.by_key) [
  | none ↦ from_repo (row_by_key key) s
  | some id ↦ (get id s.by_id, s)
]

pub find_by_id : Text → CommandStore → Option CommandRecord × CommandStore
find_by_id id s = elim (get id s.by_id) [ none ↦ from_repo (get id) s | some r ↦ (some r, s) ]

pub event_of : Text → Text → Option Text → CommandRecord → Event
event_of event_type now detail r = record {
  detail = detail;
  event_type = event_type;
  command_id = r.command_id;
  command_type = r.command_type;
  request_id = r.request_id;
  emitted_at = now;
}

pub announce : Text → Text → Option Text → CommandRecord → CommandStore → CommandStore
announce event_type now detail r s = record s {
  broker = publish (event_of event_type now detail r) s.broker;
}

-- store a changed record of this id, persist it, and tell the subscribers
pub save : Text → Text → Option Text → CommandRecord → CommandStore → CommandStore
save event_type now detail r s =
    announce event_type now detail r
      (persist_update r (record s { by_id = put r.command_id r s.by_id }))

pub counted : CommandRecord → CommandRecord
counted r = record r { idempotent_replay_count = suc r.idempotent_replay_count }

-- a request with its clock and the random ids of a new command
pub record Request : Type 0 where
  pub command_type : Text
  pub idempotency_key : Text
  pub actor : Text
  pub payload : Text
  pub now : Text
  pub new_id : Text
  pub new_request_id : Text

module _ (sha256 : Text → Text) where
  pub new_record : Request → CommandRecord
  new_record q = record {
    command_id = q.new_id;
    command_type = q.command_type;
    status = pending;
    accepted_at = q.now;
    idempotency_key = q.idempotency_key;
    actor = q.actor;
    payload_hash = sha256 q.payload;
    payload = q.payload;
    request_id = q.new_request_id;
    started_at = none;
    finished_at = none;
    idempotent_replay_count = 0;
    result = none;
    error = none;
  }

  pub is_same_request : Request → CommandRecord → Bool
  is_same_request q r =
      text_eq r.payload_hash (sha256 q.payload) && text_eq r.command_type q.command_type

  -- a new command is in memory before the table takes it
  pub create : Request → CommandStore → Outcome × CommandStore
  create q s =
      let r = new_record q in
      let s' = remember r s in
      elim s.repo [
        | none ↦ (accepted r, announce (codes "command.accepted") q.now (some q.actor) r s')
        | some rows ↦ elim (insert_row r rows) [
          | none ↦ (integrity_error, s')
          | some rows' ↦ (
            accepted r,
            announce (codes "command.accepted") q.now (some q.actor) r
                (record s' { repo = some rows' }),
          )
        ]
      ]

  pub replay : Request → CommandRecord → CommandStore → Outcome × CommandStore
  replay q existing s =
      if is_same_request q existing
      then (
        replayed (counted existing),
        save (codes "command.replayed") q.now none (counted existing) s,
      )
      else (conflict, s)

  pub create_or_replay : Request → CommandStore → Outcome × CommandStore
  create_or_replay q s =
      let (existing, s') = find_by_key q.idempotency_key s in
      elim existing [ none ↦ create q s' | some r ↦ replay q r s' ]

-- `mark_running`, `mark_succeeded` and `mark_failed` differ in what they set and announce
pub mark :
    Text
    → Option Text
    → (CommandRecord → CommandRecord)
    → Text
    → Text
    → CommandStore
    → Outcome × CommandStore
mark event_type detail change now command_id s =
    let (existing, s') = find_by_id command_id s in
    elim existing [
      | none ↦ (not_found, s')
      | some r ↦ (found (change r), save event_type now detail (change r) s')
    ]

pub started : Text → CommandRecord → CommandRecord
started now r = record r { status = running; started_at = some now }

pub succeeded_with : Text → Text → CommandRecord → CommandRecord
succeeded_with now result r = record r {
  status = succeeded;
  finished_at = some now;
  result = some result;
  error = none;
}

pub failed_with : Text → Text → CommandRecord → CommandRecord
failed_with now error r = record r { status = failed; finished_at = some now; error = some error }

pub mark_running : Text → Text → CommandStore → Outcome × CommandStore
mark_running now command_id s = mark (codes "command.running") none (started now) now command_id s

pub mark_succeeded : Text → Text → Text → CommandStore → Outcome × CommandStore
mark_succeeded now result command_id s =
    mark (codes "command.succeeded") (some result) (succeeded_with now result) now command_id s

pub mark_failed : Text → Text → Text → CommandStore → Outcome × CommandStore
mark_failed now error command_id s =
    mark (codes "command.failed") (some error) (failed_with now error) now command_id s

pub get_command : Text → CommandStore → Outcome × CommandStore
get_command command_id s =
    let (existing, s') = find_by_id command_id s in
    elim existing [ none ↦ (not_found, s') | some r ↦ (found r, s') ]
