-- ===== src/Commands/Examples.antt =====
-- A command that is sent twice, with a restart in between, and the theorems at it.
use seasonal_weather.Prelude.{
  if◌then◌else◌, ◌≡◌, refl, arith, Option, none, some, List, [], ◌∷◌, Text, codes, get, put,
}
use seasonal_weather.Commands.{
  CommandRecord, CommandStore, Outcome, accepted, replayed, found, conflict, not_found,
  integrity_error, Request, new_store, new_record, create_or_replay, counted, is_same_request,
}
use seasonal_weather.Commands.Broker.{Event, EventBroker, publish_all}
use seasonal_weather.Commands.Broker.Queues.{filled, publish_all-newest}
use seasonal_weather.Commands.Table.{IsTable}
use seasonal_weather.Commands.Cache.{IsCache, new_store-IsCache}
use seasonal_weather.Commands.Refinement.{Rows}
use seasonal_weather.Commands.Runs.{
  Op, submit, start, succeed, fail, look, run, table_run, are_fresh, run-table_run,
}
use seasonal_weather.Commands.Idempotency.{create_or_replay-once}

abbrev request : Text → Text → Request
request id payload = record {
  command_type = codes "cycle.rebuild";
  idempotency_key = codes "k-1";
  actor = codes "ops";
  payload = payload;
  now = codes "2026-01-01T00:00:00+00:00";
  new_id = id;
  new_request_id = codes "req_1";
}

-- for the hash
abbrev same_text : Text → Text
same_text payload = payload

abbrev first : Request
first = request (codes "cmd_1") (codes "{}")

abbrev again : Request
again = request (codes "cmd_2") (codes "{}")

abbrev work : List (Option Op)
work =
    some (start (codes "t1") (codes "cmd_1"))
    ∷ none
    ∷ some (succeed (codes "t2") (codes "{}") (codes "cmd_1"))
    ∷ []

abbrev empty_table : Rows
empty_table = []

empty-IsTable : IsTable empty_table
empty-IsTable = record { unique = tt; keyed = tt; distinct = tt }

abbrev empty_store : CommandStore
empty_store = new_store (some empty_table)

run-table_run_example :
    ((run same_text (some (submit first) ∷ work) empty_store).0
      ≡ (table_run same_text (some (submit first) ∷ work) empty_table).0)
    × IsCache
        (run same_text (some (submit first) ∷ work) empty_store).1
        (table_run same_text (some (submit first) ∷ work) empty_table).1
unfolding are_fresh seasonal_weather.Commands.Runs.is_fresh get
run-table_run_example =
    run-table_run same_text (some (submit first) ∷ work) empty_store empty_table
      (new_store-IsCache empty_table empty-IsTable) refl

create_or_replay-once_example :
    (x : CommandRecord) × (x.command_id ≡ (new_record same_text first).command_id)
    × ((create_or_replay same_text again
          (run same_text (some (submit first) ∷ work) empty_store).1).0
        ≡ (if is_same_request same_text again (new_record same_text first)
            then replayed (counted x)
            else conflict))
unfolding are_fresh seasonal_weather.Commands.Runs.is_fresh get create_or_replay
    seasonal_weather.Commands.find_by_key new_store seasonal_weather.Commands.from_repo
    seasonal_weather.Commands.row_by_key seasonal_weather.Commands.create
    seasonal_weather.Commands.insert_row table_run seasonal_weather.Commands.Runs.table_step
    seasonal_weather.Commands.Refinement.table_mark
    seasonal_weather.Commands.Refinement.table_submit put new_record
    seasonal_weather.Commands.started seasonal_weather.Commands.Refinement.table_get
    seasonal_weather.Commands.announce seasonal_weather.Commands.event_of
    seasonal_weather.Commands.failed_with seasonal_weather.Commands.is_same_request
    seasonal_weather.Commands.merge_row seasonal_weather.Commands.persist_update
    seasonal_weather.Commands.remember seasonal_weather.Commands.replay
    seasonal_weather.Commands.save seasonal_weather.Commands.succeeded_with
    seasonal_weather.Commands.update_row counted
create_or_replay-once_example =
    create_or_replay-once same_text first again (new_record same_text first) work empty_store
      empty_table (new_store-IsCache empty_table empty-IsTable) refl refl refl refl

abbrev event : Event
event = record {
  event_type = codes "command.running";
  command_id = codes "cmd_1";
  command_type = codes "cycle.rebuild";
  request_id = codes "req_1";
  detail = none;
  emitted_at = codes "t1";
}

abbrev one_subscriber : EventBroker
one_subscriber = record { subscribers = (0, event ∷ []) ∷ []; next_number = 1 }

publish_all-newest_example :
    (publish_all (event ∷ event ∷ []) one_subscriber).subscribers
    ≡ filled (event ∷ event ∷ []) one_subscriber.subscribers
publish_all-newest_example =
    publish_all-newest (event ∷ event ∷ []) one_subscriber (omega arith, tt)
