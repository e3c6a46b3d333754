-- ===== src/Commands/Table.antt =====
-- The table of commands: each command once under its id, and no idempotency key twice.
use seasonal_weather.Prelude.{
  true, ◌||◌, none, some, List, [], ◌∷◌, ◌≡◌, refl, sym, arith, All, All-put, Text, text_eq,
  text_eq_iff, text_eq_refl, text_in, Distinct, Dict, get, put, UniqueKeys, UniqueKeys-put,
  Bool-cases, inl, inr,
}
use mathlib.Core.Path.{subst}
use seasonal_weather.Commands.{CommandRecord, row_by_key}

abbrev pub row_keys : Dict CommandRecord → List Text
row_keys [] = []
row_keys ((id, row) ∷ rows) = row.idempotency_key ∷ row_keys rows

abbrev pub Keyed : Text × CommandRecord → Type 0
Keyed item = item.1.command_id ≡ item.0

pub record IsTable (rows : Dict CommandRecord) : Type 0 where
  pub unique : UniqueKeys rows
  pub keyed : All Keyed rows
  pub distinct : Distinct (row_keys rows)

text_in-row_keys :
    (id : Text) (rows : Dict CommandRecord) (r : CommandRecord)
    → get id rows ≡ some r
    → text_in r.idempotency_key (row_keys rows) ≡ true
unfolding get text_in
text_in-row_keys id [] r e = cc
text_in-row_keys id ((j, w) ∷ rows) r e = elim (Bool-cases (text_eq j id)) [
  | inl hit ↦ ground (arith, hit, text_eq_refl r.idempotency_key)
  | inr miss ↦ ground (arith, miss, text_in-row_keys id rows r)
]

-- a row is found under its idempotency key
row_by_key-get :
    (id : Text) (rows : Dict CommandRecord) (r : CommandRecord)
    → Distinct (row_keys rows)
    → get id rows ≡ some r
    → row_by_key r.idempotency_key rows ≡ some r
unfolding get row_by_key
row_by_key-get id [] r (d) e = cc
row_by_key-get id ((j, w) ∷ rows) r (fresh, d) e = elim (Bool-cases (text_eq j id)) [
  | inl hit ↦ ground (arith, hit, text_eq_refl r.idempotency_key)
  | inr miss ↦ ground (
    arith,
    miss,
    row_by_key-get id rows r d,
    text_in-row_keys id rows r,
    text_eq_iff w.idempotency_key r.idempotency_key,
  )
]

-- and what is found under a key has it and stands under its id
get-row_by_key :
    (key : Text) (rows : Dict CommandRecord) (r : CommandRecord)
    → UniqueKeys rows
    → All Keyed rows
    → row_by_key key rows ≡ some r
    → (get r.command_id rows ≡ some r) × (r.idempotency_key ≡ key)
unfolding get row_by_key
get-row_by_key key [] r u k e = cc
get-row_by_key key ((j, w) ∷ rows) r (fresh, u) (own, k) e =
    elim (Bool-cases (text_eq w.idempotency_key key)) [
      | inl hit ↦ ground (arith, hit, text_eq_iff w.idempotency_key key, text_eq_refl j, own)
      | inr miss ↦ ground (arith, miss, get-row_by_key key rows r u k, text_eq_iff j r.command_id)
    ]

pub IsTable-row_by_key :
    (rows : Dict CommandRecord) (id : Text) (r : CommandRecord)
    → IsTable rows
    → get id rows ≡ some r
    → row_by_key r.idempotency_key rows ≡ some r
IsTable-row_by_key rows id r t e = row_by_key-get id rows r t.distinct e

pub IsTable-get :
    (rows : Dict CommandRecord) (key : Text) (r : CommandRecord)
    → IsTable rows
    → row_by_key key rows ≡ some r
    → (get r.command_id rows ≡ some r) × (r.idempotency_key ≡ key)
IsTable-get rows key r t e = get-row_by_key key rows r t.unique t.keyed e

row_keys-put :
    (id : Text) (r old : CommandRecord) (rows : Dict CommandRecord)
    → get id rows ≡ some old
    → r.idempotency_key ≡ old.idempotency_key
    → row_keys (put id r rows) ≡ row_keys rows
unfolding get put
row_keys-put id r old [] e same = cc
row_keys-put id r old ((j, w) ∷ rows) e same = elim (Bool-cases (text_eq j id)) [
  | inl hit ↦ ground (arith, hit)
  | inr miss ↦ ground (arith, miss, row_keys-put id r old rows)
]

-- an update keeps the table
pub IsTable-put :
    (id : Text) (r old : CommandRecord) (rows : Dict CommandRecord)
    → IsTable rows
    → get id rows ≡ some old
    → r.command_id ≡ id
    → r.idempotency_key ≡ old.idempotency_key
    → IsTable (put id r rows)
IsTable-put id r old rows t e own same = record {
  unique = UniqueKeys-put id r rows t.unique;
  keyed = All-put Keyed id r rows own t.keyed;
  distinct = subst Distinct (sym (row_keys-put id r old rows e same)) t.distinct;
}

text_in-row_keys-put :
    (k id : Text) (r : CommandRecord) (rows : Dict CommandRecord)
    → get id rows ≡ none
    → text_in k (row_keys (put id r rows))
      ≡ (text_eq r.idempotency_key k || text_in k (row_keys rows))
unfolding get put text_in
text_in-row_keys-put k id r [] e = refl
text_in-row_keys-put k id r ((j, w) ∷ rows) e = ground (arith, text_in-row_keys-put k id r rows)

Distinct-put :
    (id : Text) (r : CommandRecord) (rows : Dict CommandRecord)
    → get id rows ≡ none
    → row_by_key r.idempotency_key rows ≡ none
    → Distinct (row_keys rows)
    → Distinct (row_keys (put id r rows))
unfolding get put row_by_key
Distinct-put id r [] e absent d = (unfold text_in in refl, tt)
Distinct-put id r ((j, w) ∷ rows) e absent (fresh, d) = elim (Bool-cases (text_eq j id)) [
  | inl hit ↦ ground (arith, hit)
  | inr miss ↦ rw miss (
    ground (
      arith,
      miss,
      text_in-row_keys-put w.idempotency_key id r rows,
      text_eq_iff r.idempotency_key w.idempotency_key,
      text_eq_iff w.idempotency_key r.idempotency_key,
    ),
    Distinct-put id r rows (ground (arith, miss)) (ground arith) d,
  )
]

-- a new command keeps the table
pub IsTable-put_new :
    (r : CommandRecord) (rows : Dict CommandRecord)
    → IsTable rows
    → get r.command_id rows ≡ none
    → row_by_key r.idempotency_key rows ≡ none
    → IsTable (put r.command_id r rows)
IsTable-put_new r rows t new absent = record {
  unique = UniqueKeys-put r.command_id r rows t.unique;
  keyed = All-put Keyed r.command_id r rows refl t.keyed;
  distinct = Distinct-put r.command_id r rows new absent t.distinct;
}
