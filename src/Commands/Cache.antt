-- ===== src/Commands/Cache.antt =====
-- Memory is a cache of the table: the store answers as the table alone would.
use seasonal_weather.Prelude.{
  true, Option, none, some, ◌≡◌, refl, sym, ◌∙◌, ap, ◌⊎◌, inl, inr, Text, text_eq, text_eq_iff,
  text_eq_refl, All-get, Dict, get, put, get-put, Bool-cases,
}
use seasonal_weather.Commands.{
  CommandRecord, CommandStore, row_by_key, update_row, merge_row, new_store, persist_update,
  remember, from_repo, find_by_key, find_by_id, announce, save,
}
use seasonal_weather.Commands.Table.{IsTable, Keyed, IsTable-row_by_key, IsTable-get, IsTable-put}

-- Memory holds rows of the table, and its index leads from a key to the record that has it.
pub record IsCache (s : CommandStore) (rows : Dict CommandRecord) : Type 0 where
  pub repo : s.repo ≡ some rows
  pub table : IsTable rows
  pub cached : (id : Text) → (get id s.by_id ≡ none) ⊎ (get id s.by_id ≡ get id rows)
  pub indexed :
      (key : Text)
      → (get key s.by_key ≡ none)
        ⊎ ((r : CommandRecord) × (get key s.by_key ≡ some r.command_id)
            × (get r.command_id s.by_id ≡ some r)
            × (r.idempotency_key ≡ key))

-- a new process on the same table
pub new_store-IsCache :
    (rows : Dict CommandRecord) → IsTable rows → IsCache (new_store (some rows)) rows
unfolding new_store get
new_store-IsCache rows t = record {
  repo = refl;
  table = t;
  cached = λ id. inl refl;
  indexed = λ key. inl refl;
}

cached_row :
    (s : CommandStore) (rows : Dict CommandRecord) (id : Text) (r : CommandRecord)
    → IsCache s rows
    → get id s.by_id ≡ some r
    → get id rows ≡ some r
cached_row s rows id r c e = elim (c.cached id) [ inl n ↦ cc (n, e) | inr same ↦ sym same ∙ e ]

-- a row that memory takes in
pub remember-IsCache :
    (r : CommandRecord) (s : CommandStore) (rows : Dict CommandRecord)
    → get r.command_id rows ≡ some r
    → IsCache s rows
    → IsCache (remember r s) rows
unfolding remember
remember-IsCache r s rows e c = record {
  repo = c.repo;
  table = c.table;
  cached = λ id. elim (Bool-cases (text_eq r.command_id id)) [
    | inl hit ↦ inr (
        get-put id r.command_id r s.by_id
        ∙ rw hit (sym e ∙ ap (λ i. get i rows) ((text_eq_iff r.command_id id).0 hit)))
    | inr miss ↦ elim (c.cached id) [
      | inl n ↦ inl (get-put id r.command_id r s.by_id ∙ rw miss n)
      | inr same ↦ inr (get-put id r.command_id r s.by_id ∙ rw miss same)
    ]
  ];
  indexed = λ key. elim (Bool-cases (text_eq r.idempotency_key key)) [
    | inl hit ↦ inr (
      r,
      get-put key r.idempotency_key r.command_id s.by_key ∙ rw hit refl,
      get-put r.command_id r.command_id r s.by_id ∙ rw (text_eq_refl r.command_id) refl,
      (text_eq_iff r.idempotency_key key).0 hit,
    )
    | inr miss ↦ elim (c.indexed key) [
      | inl n ↦ inl (get-put key r.idempotency_key r.command_id s.by_key ∙ rw miss n)
      | inr (x, there, held, own) ↦ inr (
        x,
        get-put key r.idempotency_key r.command_id s.by_key ∙ rw miss there,
        still x held,
        own,
      )
    ]
  ];
}
  where
    still :
        (x : CommandRecord)
        → get x.command_id s.by_id ≡ some x
        → get x.command_id (put r.command_id r s.by_id) ≡ some x
    still x held = elim (Bool-cases (text_eq r.command_id x.command_id)) [
      | inl hit ↦
          get-put x.command_id r.command_id r s.by_id
          ∙ rw hit (
              sym e
              ∙ (ap (λ i. get i rows) ((text_eq_iff r.command_id x.command_id).0 hit)
                  ∙ cached_row s rows x.command_id x c held))
      | inr miss ↦ get-put x.command_id r.command_id r s.by_id ∙ rw miss held
    ]

-- an answer and a store that go with the table
abbrev pub Answers :
    Option CommandRecord → Dict CommandRecord → Option CommandRecord × CommandStore → Type 0
Answers row rows (r, s) = (r ≡ row) × IsCache s rows

from_repo-IsCache :
    (query : Dict CommandRecord → Option CommandRecord) (s : CommandStore)
    (rows : Dict CommandRecord)
    → ((r : CommandRecord) → query rows ≡ some r → get r.command_id rows ≡ some r)
    → IsCache s rows
    → Answers (query rows) rows (from_repo query s)
unfolding from_repo
from_repo-IsCache query s rows honest c = go (query rows) refl
  where
    go : (row : Option CommandRecord) → query rows ≡ row → Answers row rows (from_repo query s)
    go none e = rw (c.repo, e, from_repo) (refl, c)
    go (some r) e = rw (c.repo, e, from_repo) (refl, remember-IsCache r s rows (honest r e) c)

pub find_by_key-IsCache :
    (key : Text) (s : CommandStore) (rows : Dict CommandRecord)
    → IsCache s rows
    → Answers (row_by_key key rows) rows (find_by_key key s)
unfolding find_by_key
find_by_key-IsCache key s rows c = elim (c.indexed key) [
  | inl n ↦
      rw (n, find_by_key)
        (from_repo-IsCache (row_by_key key) s rows (λ r e. (IsTable-get rows key r c.table e).0) c)
  | inr (x, there, held, own) ↦
      rw (there, find_by_key)
        (
          held
              ∙ sym (
                  ap (λ k. row_by_key k rows) (sym own)
                  ∙ IsTable-row_by_key rows x.command_id x c.table
                      (cached_row s rows x.command_id x c held)),
          c,
        )
]

pub IsTable-id :
    (rows : Dict CommandRecord) (id : Text) (r : CommandRecord)
    → IsTable rows
    → get id rows ≡ some r
    → r.command_id ≡ id
IsTable-id rows id r t e = All-get Keyed id rows t.keyed e

pub find_by_id-IsCache :
    (id : Text) (s : CommandStore) (rows : Dict CommandRecord)
    → IsCache s rows
    → Answers (get id rows) rows (find_by_id id s)
unfolding find_by_id get
find_by_id-IsCache id s rows c = go (get id s.by_id) refl
  where
    go :
        (held : Option CommandRecord)
        → get id s.by_id ≡ held
        → Answers (get id rows) rows (find_by_id id s)
    go none e =
        rw (e, find_by_id)
          (from_repo-IsCache (get id) s rows
            (λ r h. ap (λ i. get i rows) (IsTable-id rows id r c.table h) ∙ h) c)
    go (some r) e = rw (e, find_by_id) (sym (cached_row s rows id r c e), c)

pub some_inj : {x y : CommandRecord} → some x ≡ some y → x ≡ y
some_inj e = cc

-- a stored record that is changed in the columns of the update
pub save-IsCache :
    (event_type now : Text) (detail : Option Text) (r old : CommandRecord) (s : CommandStore)
    (rows : Dict CommandRecord)
    → get r.command_id rows ≡ some old
    → merge_row r old ≡ r
    → r.idempotency_key ≡ old.idempotency_key
    → IsCache s rows
    → IsCache (save event_type now detail r s) (put r.command_id r rows)
unfolding save announce persist_update update_row
save-IsCache event_type now detail r old s rows e merged same c = record {
  repo = rw (c.repo, e, update_row, merged) refl;
  table = IsTable-put r.command_id r old rows c.table e refl same;
  cached = λ id. elim (Bool-cases (text_eq r.command_id id)) [
    | inl hit ↦ inr (
        get-put id r.command_id r s.by_id
        ∙ rw hit (sym (get-put id r.command_id r rows ∙ rw hit refl)))
    | inr miss ↦ elim (c.cached id) [
      | inl n ↦ inl (get-put id r.command_id r s.by_id ∙ rw miss n)
      | inr agree ↦ inr (
          get-put id r.command_id r s.by_id
          ∙ rw miss (agree ∙ sym (get-put id r.command_id r rows ∙ rw miss refl)))
    ]
  ];
  indexed = λ key. elim (c.indexed key) [
    | inl n ↦ inl n
    | inr (x, there, held, own) ↦ elim (Bool-cases (text_eq r.command_id x.command_id)) [
      | inl hit ↦ inr (
        r,
        there ∙ ap some (sym ((text_eq_iff r.command_id x.command_id).0 hit)),
        get-put r.command_id r.command_id r s.by_id ∙ rw (text_eq_refl r.command_id) refl,
        same ∙ (ap (λ (w : CommandRecord). w.idempotency_key) (old_is x held hit) ∙ own),
      )
      | inr miss ↦ inr (x, there, get-put x.command_id r.command_id r s.by_id ∙ rw miss held, own)
    ]
  ];
}
  where
    old_is :
        (x : CommandRecord)
        → get x.command_id s.by_id ≡ some x
        → text_eq r.command_id x.command_id ≡ true
        → old ≡ x
    old_is x held hit = some_inj (
        sym e
        ∙ (ap (λ i. get i rows) ((text_eq_iff r.command_id x.command_id).0 hit)
            ∙ cached_row s rows x.command_id x c held))
