-- ===== src/Commands/Runs.antt =====
-- Commands over many operations, with restarts of the process between them.
use seasonal_weather.Prelude.{
  Bool, true, not, ◌&&◌, Option, none, some, List, [], ◌∷◌, ◌≡◌, refl, sym, arith, Text, codes, has,
}
use seasonal_weather.Commands.{
  CommandStore, Outcome, Request, new_store, create_or_replay, started, succeeded_with, failed_with,
  mark_running, mark_succeeded, mark_failed, get_command,
}
use mathlib.Core.Path.{subst}
use seasonal_weather.Commands.Cache.{IsCache, new_store-IsCache}
use seasonal_weather.Commands.Refinement.{
  Rows, Refines, started-IsUpdate, succeeded_with-IsUpdate, failed_with-IsUpdate, table_mark,
  table_get, table_submit, mark-Refines, get_command-Refines, create_or_replay-Refines,
}

pub data Op : Type 0 where
  submit : Request → Op
  start : Text → Text → Op
  succeed : Text → Text → Text → Op
  fail : Text → Text → Text → Op
  look : Text → Op

-- the new id of a request is not in the table
unfoldable pub is_fresh : Op → Rows → Bool
is_fresh (submit q) rows = not (has q.new_id rows)
is_fresh (start now id) rows = true
is_fresh (succeed now result id) rows = true
is_fresh (fail now error id) rows = true
is_fresh (look id) rows = true

module _ (sha256 : Text → Text) where
  unfoldable pub step : Op → CommandStore → Outcome × CommandStore
  step (submit q) s = create_or_replay sha256 q s
  step (start now id) s = mark_running now id s
  step (succeed now result id) s = mark_succeeded now result id s
  step (fail now error id) s = mark_failed now error id s
  step (look id) s = get_command id s

  unfoldable pub table_step : Op → Rows → Outcome × Rows
  table_step (submit q) rows = table_submit sha256 q rows
  table_step (start now id) rows = table_mark (started now) id rows
  table_step (succeed now result id) rows = table_mark (succeeded_with now result) id rows
  table_step (fail now error id) rows = table_mark (failed_with now error) id rows
  table_step (look id) rows = table_get id rows

  -- none is a restart: a new process with the table of the old one
  unfoldable pub run : List (Option Op) → CommandStore → List Outcome × CommandStore
  run [] s = ([], s)
  run (none ∷ ops) s = run ops (new_store s.repo)
  run (some op ∷ ops) s =
      let (answer, s') = step op s in let (answers, final) = run ops s' in (answer ∷ answers, final)

  unfoldable pub table_run : List (Option Op) → Rows → List Outcome × Rows
  table_run [] rows = ([], rows)
  table_run (none ∷ ops) rows = table_run ops rows
  table_run (some op ∷ ops) rows =
      let (answer, rows') = table_step op rows in
      let (answers, final) = table_run ops rows' in (answer ∷ answers, final)

  unfoldable pub are_fresh : List (Option Op) → Rows → Bool
  are_fresh [] rows = true
  are_fresh (none ∷ ops) rows = are_fresh ops rows
  are_fresh (some op ∷ ops) rows = is_fresh op rows && are_fresh ops (table_step op rows).1

  pub step-Refines :
      (op : Op) (s : CommandStore) (rows : Rows)
      → is_fresh op rows ≡ true
      → IsCache s rows
      → Refines (step op s) (table_step op rows)
  unfolding step table_step is_fresh mark_running mark_succeeded mark_failed
  step-Refines (submit q) s rows new c =
      create_or_replay-Refines sha256 q s rows (ground (arith, new)) c
  step-Refines (start now id) s rows new c =
      mark-Refines (codes "command.running") now none (started now) id s rows (started-IsUpdate now)
        c
  step-Refines (succeed now result id) s rows new c =
      mark-Refines (codes "command.succeeded") now (some result) (succeeded_with now result) id s
        rows (succeeded_with-IsUpdate now result) c
  step-Refines (fail now error id) s rows new c =
      mark-Refines (codes "command.failed") now (some error) (failed_with now error) id s rows
        (failed_with-IsUpdate now error) c
  step-Refines (look id) s rows new c = get_command-Refines id s rows c

  pub restart-IsCache :
      (s : CommandStore) (rows : Rows) → IsCache s rows → IsCache (new_store s.repo) rows
  restart-IsCache s rows c =
      subst (λ repo. IsCache (new_store repo) rows) (sym c.repo) (new_store-IsCache rows c.table)

  -- The command store answers every sequence of requests, status changes and lookups, with restarts of the
  -- process in between, exactly as its table alone would, and its memory stays a cache of that table,
  -- when the new command ids are not in the table and nobody deletes rows.
  pub run-table_run :
      (ops : List (Option Op)) (s : CommandStore) (rows : Rows)
      → IsCache s rows
      → are_fresh ops rows ≡ true
      → ((run ops s).0 ≡ (table_run ops rows).0) × IsCache (run ops s).1 (table_run ops rows).1
  unfolding run table_run are_fresh
  run-table_run [] s rows c fresh = (refl, c)
  run-table_run (none ∷ ops) s rows c fresh =
      run-table_run ops (new_store s.repo) rows (restart-IsCache s rows c) fresh
  run-table_run (some op ∷ ops) s rows c fresh =
      let (same, kept) = step-Refines op s rows (ground (arith, fresh)) c in
      let (answers, last) =
        run-table_run ops (step op s).1 (table_step op rows).1 kept (ground (arith, fresh)) in
      (rw (same, answers) refl, last)
