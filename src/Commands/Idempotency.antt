-- ===== src/Commands/Idempotency.antt =====
-- A command is carried out once for its idempotency key, over restarts too.
use seasonal_weather.Prelude.{
  Bool, true, Option, none, some, List, [], ◌∷◌, ◌≡◌, refl, sym, ◌∙◌, ap, arith, inl, inr,
  if◌then◌else◌, Text, text_eq, text_eq_iff, text_eq_refl, get, put, get-put, Bool-cases,
  Option-cases,
}
use mathlib.Core.Path.{subst}
use seasonal_weather.Commands.{
  CommandRecord, CommandStore, Outcome, accepted, replayed, conflict, Request, row_by_key, counted,
  new_record, is_same_request, create_or_replay, started, succeeded_with, failed_with,
}
use seasonal_weather.Commands.Table.{IsTable, IsTable-row_by_key, IsTable-get}
use seasonal_weather.Commands.Cache.{IsCache, IsTable-id, some_inj}
use seasonal_weather.Commands.Refinement.{
  Rows, IsUpdate, started-IsUpdate, succeeded_with-IsUpdate, failed_with-IsUpdate, counted-IsUpdate,
  table_mark, table_get, table_submit, create_or_replay-Refines,
}
use seasonal_weather.Commands.Runs.{
  Op, submit, start, succeed, fail, look, is_fresh, step, table_step, run, table_run, are_fresh,
  step-Refines, run-table_run,
}

-- two states of one command
record IsSameCommand (r later : CommandRecord) : Type 0 where
  id : later.command_id ≡ r.command_id
  key : later.idempotency_key ≡ r.idempotency_key
  hash : later.payload_hash ≡ r.payload_hash
  type : later.command_type ≡ r.command_type

-- no command is lost or becomes another one
abbrev Stays : Rows → Rows → Type 0
Stays rows later =
    (id : Text) (r : CommandRecord)
    → get id rows ≡ some r
    → (x : CommandRecord) × (get id later ≡ some x) × IsSameCommand r x

same_command : (r : CommandRecord) → IsSameCommand r r
same_command r = record { id = refl; key = refl; hash = refl; type = refl }

put-Stays :
    (change : CommandRecord → CommandRecord) (old : CommandRecord) (rows : Rows)
    → IsUpdate change
    → get old.command_id rows ≡ some old
    → Stays rows (put old.command_id (change old) rows)
put-Stays change old rows u held id r e = elim (Bool-cases (text_eq old.command_id id)) [
  | inl hit ↦ (
    change old,
    get-put id old.command_id (change old) rows ∙ rw hit refl,
    subst (λ w. IsSameCommand w (change old)) (is_old hit) changed,
  )
  | inr miss ↦ (r, get-put id old.command_id (change old) rows ∙ rw miss e, same_command r)
]
  where
    changed : IsSameCommand old (change old)
    changed = record { id = u.id old; key = u.key old; hash = u.hash old; type = u.type old }

    is_old : text_eq old.command_id id ≡ true → old ≡ r
    is_old hit =
        some_inj (sym held ∙ (ap (λ i. get i rows) ((text_eq_iff old.command_id id).0 hit) ∙ e))

insert-Stays :
    (j : Text) (new : CommandRecord) (rows : Rows) → get j rows ≡ none → Stays rows (put j new rows)
insert-Stays j new rows absent id r e = elim (Bool-cases (text_eq j id)) [
  | inl hit ↦ cc (sym absent ∙ (ap (λ i. get i rows) ((text_eq_iff j id).0 hit) ∙ e))
  | inr miss ↦ (r, get-put id j new rows ∙ rw miss e, same_command r)
]

mark-Stays :
    (change : CommandRecord → CommandRecord) (id : Text) (rows : Rows)
    → IsUpdate change
    → IsTable rows
    → Stays rows (table_mark change id rows).1
unfolding table_mark
mark-Stays change id rows u t = elim (Option-cases (get id rows)) [
  | inl e ↦ rw (e, table_mark) (λ j r held. (r, held, same_command r))
  | inr (old, e) ↦
      rw (e, table_mark)
        (put-Stays change old rows u (ap (λ i. get i rows) (IsTable-id rows id old t e) ∙ e))
]

get-Stays : (id : Text) (rows : Rows) → Stays rows (table_get id rows).1
unfolding table_get
get-Stays id rows = elim (Option-cases (get id rows)) [
  | inl e ↦ rw (e, table_get) (λ j r held. (r, held, same_command r))
  | inr (old, e) ↦ rw (e, table_get) (λ j r held. (r, held, same_command r))
]

accepted_inj : {x y : CommandRecord} → accepted x ≡ accepted y → x ≡ y
accepted_inj e = cc

module _ (sha256 : Text → Text) where
  submit-Stays :
      (q : Request) (rows : Rows)
      → IsTable rows
      → get q.new_id rows ≡ none
      → Stays rows (table_submit sha256 q rows).1
  unfolding table_submit
  submit-Stays q rows t new = elim (Option-cases (row_by_key q.idempotency_key rows)) [
    | inl e ↦ rw (e, table_submit) (insert-Stays q.new_id (new_record sha256 q) rows new)
    | inr (old, e) ↦ elim (Bool-cases (is_same_request sha256 q old)) [
      | inl same ↦
          rw (e, table_submit, same)
            (put-Stays counted old rows counted-IsUpdate
              (IsTable-get rows q.idempotency_key old t e).0)
      | inr other ↦ rw (e, table_submit, other) (λ j r held. (r, held, same_command r))
    ]
  ]

  step-Stays :
      (op : Op) (rows : Rows)
      → IsTable rows
      → is_fresh op rows ≡ true
      → Stays rows (table_step sha256 op rows).1
  unfolding table_step is_fresh
  step-Stays (submit q) rows t new = submit-Stays q rows t (ground (arith, new))
  step-Stays (start now id) rows t new = mark-Stays (started now) id rows (started-IsUpdate now) t
  step-Stays (succeed now result id) rows t new =
      mark-Stays (succeeded_with now result) id rows (succeeded_with-IsUpdate now result) t
  step-Stays (fail now error id) rows t new =
      mark-Stays (failed_with now error) id rows (failed_with-IsUpdate now error) t
  step-Stays (look id) rows t new = get-Stays id rows

  run-Stays :
      (ops : List (Option Op)) (s : CommandStore) (rows : Rows)
      → IsCache s rows
      → are_fresh sha256 ops rows ≡ true
      → Stays rows (table_run sha256 ops rows).1
  unfolding table_run are_fresh
  run-Stays [] s rows c fresh id r held = (r, held, same_command r)
  run-Stays (none ∷ ops) s rows c fresh id r held = run-Stays ops s rows c fresh id r held
  run-Stays (some op ∷ ops) s rows c fresh id r held =
      let (x, there, same) = step-Stays op rows c.table (ground (arith, fresh)) id r held in
      let (y, last, again) =
        run-Stays ops (step sha256 op s).1 (table_step sha256 op rows).1
          (step-Refines sha256 op s rows (ground (arith, fresh)) c).1 (ground (arith, fresh)) id x
          there in
      (
        y,
        last,
        record {
          id = again.id ∙ same.id;
          key = again.key ∙ same.key;
          hash = again.hash ∙ same.hash;
          type = again.type ∙ same.type;
        },
      )

  submit_new :
      (q : Request) (rows : Rows)
      → row_by_key q.idempotency_key rows ≡ none
      → table_submit sha256 q rows
        ≡ (accepted (new_record sha256 q), put q.new_id (new_record sha256 q) rows)
  unfolding table_submit
  submit_new q rows e = rw (e, table_submit) refl

  submit_known :
      (q : Request) (rows : Rows) (r : CommandRecord)
      → row_by_key q.idempotency_key rows ≡ some r
      → (table_submit sha256 q rows).0
        ≡ (if is_same_request sha256 q r then replayed (counted r) else conflict)
  unfolding table_submit
  submit_known q rows r e = elim (Bool-cases (is_same_request sha256 q r)) [
    | inl same ↦ rw (e, table_submit, same) refl
    | inr other ↦ rw (e, table_submit, other) refl
  ]

  not_accepted :
      (q : Request) (old r : CommandRecord)
      → ¬ ((if is_same_request sha256 q old then replayed (counted old) else conflict) ≡ accepted r)
  not_accepted q old r e = elim (Bool-cases (is_same_request sha256 q old)) [
    | inl same ↦ cc
    | inr other ↦ cc
  ]

  -- what is accepted is in the table
  accepted-get :
      (q : Request) (rows : Rows) (r : CommandRecord)
      → (table_submit sha256 q rows).0 ≡ accepted r
      → (get r.command_id (table_submit sha256 q rows).1 ≡ some r)
        × (r.idempotency_key ≡ q.idempotency_key)
  unfolding new_record
  accepted-get q rows r e = elim (Option-cases (row_by_key q.idempotency_key rows)) [
    | inl h ↦
        subst Kept (accepted_inj (sym (ap (λ (p : Outcome × Rows). p.0) (submit_new q rows h)) ∙ e))
          (
            ap (λ (p : Outcome × Rows). get q.new_id p.1) (submit_new q rows h)
                ∙ (get-put q.new_id q.new_id new rows ∙ rw (text_eq_refl q.new_id) refl),
            refl,
          )
    | inr (old, h) ↦ absurd (not_accepted q old r (sym (submit_known q rows old h) ∙ e))
  ]
    where
      new : CommandRecord
      new = new_record sha256 q

      Kept : CommandRecord → Type 0
      Kept x =
          (get x.command_id (table_submit sha256 q rows).1 ≡ some x)
          × (x.idempotency_key ≡ q.idempotency_key)

  alike :
      (q : Request) (r x : CommandRecord)
      → IsSameCommand r x
      → is_same_request sha256 q x ≡ is_same_request sha256 q r
  unfolding is_same_request
  alike q r x same = simp (same.hash, same.type) refl

  -- Once a request is accepted as a command, and after any further requests, status changes, lookups and
  -- restarts of the process, a request with the same idempotency key is a replay of that command where its
  -- payload hash and command type are those of the command, and a conflict otherwise; it never makes a
  -- second command. (The new command ids are not in the table, and nobody deletes rows.)
  pub create_or_replay-once :
      (first again : Request) (r : CommandRecord) (ops : List (Option Op)) (s : CommandStore)
      (rows : Rows)
      → IsCache s rows
      → are_fresh sha256 (some (submit first) ∷ ops) rows ≡ true
      → (create_or_replay sha256 first s).0 ≡ accepted r
      → again.idempotency_key ≡ first.idempotency_key
      → get again.new_id (table_run sha256 (some (submit first) ∷ ops) rows).1 ≡ none
      → (x : CommandRecord) × (x.command_id ≡ r.command_id)
        × ((create_or_replay sha256 again (run sha256 (some (submit first) ∷ ops) s).1).0
            ≡ (if is_same_request sha256 again r then replayed (counted x) else conflict))
  unfolding run table_run are_fresh step table_step is_fresh
  create_or_replay-once first again r ops s rows c fresh taken key new =
      let (answer, kept) = step-Refines sha256 (submit first) s rows (ground (arith, fresh)) c in
      let (held, own) = accepted-get first rows r (sym answer ∙ taken) in
      let (x, there, same) =
        run-Stays ops (create_or_replay sha256 first s).1 (table_submit sha256 first rows).1 kept
          (ground (arith, fresh)) r.command_id r held in
      let (answers, last) =
        run-table_run sha256 ops (create_or_replay sha256 first s).1
          (table_submit sha256 first rows).1 kept (ground (arith, fresh)) in
      (
        x,
        same.id,
        (create_or_replay-Refines sha256 again _ _ new last).0
            ∙ (submit_known again _ x (
                  ap (λ k. row_by_key k (table_run sha256 ops (table_submit sha256 first rows).1).1)
                    (key ∙ (sym own ∙ sym same.key))
                  ∙ IsTable-row_by_key _ r.command_id x last.table there)
                ∙ ap (λ (b : Bool). if b then replayed (counted x) else conflict)
                    (alike again r x same)),
      )
