-- ===== src/Auth/Repository.antt =====
-- seasonalweather/auth/repository.py: the tables of clients, tokens and audit events. Each operation is
-- one transaction, so it takes place whole or, where it raises or returns nothing, not at all.
pub mod Kept
pub mod Transactions
pub mod Ended
use seasonal_weather.Prelude.{
  ℕ, suc, Bool, true, false, not, ◌&&◌, ◌||◌, Option, none, some, List, [], ◌∷◌, ◌++◌,
  if◌then◌else◌, ◌==◌, is_some, Text, codes, text_eq, text_le, Dict, get, put, has, values, sort_by,
}
use seasonal_weather.Auth.{
  ClientRecord, AccessTokenRecord, AuthError, runtime_error, integrity_error, Result, ok, raised,
}

pub record AuditEvent : Type 0 where
  pub event_type : Text
  pub occurred_at : ℕ
  pub client_id : Text
  pub token_id : Option Text
  pub actor : Text
  pub source_ip : Option Text
  pub request_id : Option Text

pub record AuthDatabase : Type 0 where
  pub clients : Dict ClientRecord
  pub tokens : Dict AccessTokenRecord
  pub audit : List AuditEvent

pub empty_database : AuthDatabase
empty_database = record { clients = []; tokens = []; audit = [] }

unfoldable pub add_audit : AuditEvent → AuthDatabase → AuthDatabase
add_audit event db = record db { audit = db.audit ++ event ∷ [] }

-- an event about a client alone
unfoldable pub client_event : Text → ℕ → Text → Text → AuditEvent
client_event event_type now client_id actor = record {
  event_type = event_type;
  occurred_at = now;
  client_id = client_id;
  token_id = none;
  actor = actor;
  source_ip = none;
  request_id = none;
}

pub token_event : Text → ℕ → Text → Text → Text → Text → Option Text → AuditEvent
token_event event_type now client_id token_id actor source_ip request_id = record {
  event_type = event_type;
  occurred_at = now;
  client_id = client_id;
  token_id = some token_id;
  actor = actor;
  source_ip = some source_ip;
  request_id = request_id;
}

pub create_client : ClientRecord → Text → AuthDatabase → Result (ClientRecord × AuthDatabase)
create_client client actor db =
    if has client.client_id db.clients
    then raised integrity_error
    else ok (
      client,
      add_audit (client_event (codes "client.created") client.created_at client.client_id actor)
          (record db { clients = put client.client_id client db.clients }),
    )

abbrev pub get_client : Text → AuthDatabase → Option ClientRecord
get_client client_id db = get client_id db.clients

-- `ORDER BY client_id`
pub list_clients : AuthDatabase → List ClientRecord
list_clients db = sort_by (λ a b. text_le a.client_id b.client_id) (values db.clients)

-- `revoked_at = COALESCE(revoked_at, now) WHERE client_id = ?` on one token
unfoldable pub revoked_token : Text → ℕ → AccessTokenRecord → AccessTokenRecord
revoked_token client_id now token =
    if text_eq token.client_id client_id
    then record token {
      revoked_at = if is_some token.revoked_at then token.revoked_at else some now;
    }
    else token

unfoldable pub revoke_tokens : Text → ℕ → Dict AccessTokenRecord → Dict AccessTokenRecord
revoke_tokens client_id now [] = []
revoke_tokens client_id now ((k, token) ∷ tokens) =
    (k, revoked_token client_id now token) ∷ revoke_tokens client_id now tokens

pub rotate_client : Text → Text → ℕ → Text → AuthDatabase → Option (ClientRecord × AuthDatabase)
rotate_client client_id verifier_digest now actor db = elim (get client_id db.clients) [
  | none ↦ none
  | some row ↦
      let updated = record row {
        verifier_digest = verifier_digest;
        generation = suc row.generation;
        updated_at = now;
      } in
      if is_some row.revoked_at
      then none
      else some (
        updated,
        add_audit (client_event (codes "client.rotated") now client_id actor) (record db {
          clients = put client_id updated db.clients;
          tokens = revoke_tokens client_id now db.tokens;
        }),
      )
]

unfoldable pub set_client_enabled :
    Text → Bool → ℕ → Text → AuthDatabase → Option (ClientRecord × AuthDatabase)
set_client_enabled client_id enabled now actor db = elim (get client_id db.clients) [
  | none ↦ none
  | some row ↦
      let updated = record row { enabled = enabled; updated_at = now } in
      let event = if enabled then codes "client.enabled" else codes "client.disabled" in
      if is_some row.revoked_at
      then none
      else some (
        updated,
        add_audit (client_event event now client_id actor) (record db {
          clients = put client_id updated db.clients;
          tokens = if enabled then db.tokens else revoke_tokens client_id now db.tokens;
        }),
      )
]

pub revoke_client : Text → ℕ → Text → AuthDatabase → Option (ClientRecord × AuthDatabase)
revoke_client client_id now actor db = elim (get client_id db.clients) [
  | none ↦ none
  | some row ↦
      let updated = record row { enabled = false; revoked_at = some now; updated_at = now } in
      if is_some row.revoked_at
      then some (row, db)
      else some (
        updated,
        add_audit (client_event (codes "client.revoked") now client_id actor) (record db {
          clients = put client_id updated db.clients;
          tokens = revoke_tokens client_id now db.tokens;
        }),
      )
]

-- the client's state is read again inside the transaction
pub may_issue : ClientRecord → Option ClientRecord → Bool
may_issue client none = false
may_issue client (some current) =
    current.generation == client.generation && current.enabled && not (is_some current.revoked_at)

-- `UPDATE auth_clients SET last_used_at, updated_at`
pub used_client : ℕ → ClientRecord → ClientRecord
used_client now row = record row { last_used_at = some now; updated_at = now }

pub change_client : Text → (ClientRecord → ClientRecord) → Dict ClientRecord → Dict ClientRecord
change_client client_id change clients = elim (get client_id clients) [
  | none ↦ clients
  | some row ↦ put client_id (change row) clients
]

pub issue_token :
    ClientRecord
    → AccessTokenRecord
    → Text
    → Text
    → Option Text
    → AuthDatabase
    → Result (AccessTokenRecord × AuthDatabase)
issue_token client token actor source_ip request_id db =
    if not (may_issue client (get client.client_id db.clients))
    then raised runtime_error
    else if has token.token_id db.tokens
    then raised integrity_error
    else ok (
      token,
      add_audit
          (token_event (codes "token.issued") token.issued_at client.client_id token.token_id actor
            source_ip request_id)
          (record db {
            tokens = put token.token_id token db.tokens;
            clients = change_client client.client_id (used_client token.issued_at) db.clients;
          }),
    )

abbrev pub get_token : Text → AuthDatabase → Option AccessTokenRecord
get_token token_id db = get token_id db.tokens

pub revoke_owned_token :
    Text → Text → ℕ → Text → Text → Option Text → AuthDatabase → Bool × AuthDatabase
revoke_owned_token token_id client_id now actor source_ip request_id db =
    elim (get token_id db.tokens) [
      | none ↦ (false, db)
      | some row ↦
          if not (text_eq row.client_id client_id) || is_some row.revoked_at then (false, db) else (
            true,
            add_audit
                (token_event (codes "token.revoked") now client_id token_id actor source_ip
                  request_id)
                (record db {
                  tokens = put token_id (record row { revoked_at = some now }) db.tokens;
                }),
          )
    ]

-- `last_used_at IS NULL OR last_used_at <= ?`: SQLite compares the texts that `to_iso` wrote
pub is_due : (ℕ → Text) → ℕ → Option ℕ → Bool
is_due to_iso threshold none = true
is_due to_iso threshold (some last) = text_le (to_iso last) (to_iso threshold)

pub coalesced_token : (ℕ → Text) → ℕ → ℕ → AccessTokenRecord → AccessTokenRecord
coalesced_token to_iso now threshold row =
    if is_due to_iso threshold row.last_used_at then record row { last_used_at = some now } else row

pub coalesced_client : (ℕ → Text) → ℕ → ℕ → ClientRecord → ClientRecord
coalesced_client to_iso now threshold row =
    if is_due to_iso threshold row.last_used_at then used_client now row else row

pub change_token :
    Text → (AccessTokenRecord → AccessTokenRecord) → Dict AccessTokenRecord → Dict AccessTokenRecord
change_token token_id change tokens = elim (get token_id tokens) [
  | none ↦ tokens
  | some row ↦ put token_id (change row) tokens
]

pub coalesce_last_used : (ℕ → Text) → Text → Text → ℕ → ℕ → AuthDatabase → AuthDatabase
coalesce_last_used to_iso client_id token_id now threshold db = record db {
  clients = change_client client_id (coalesced_client to_iso now threshold) db.clients;
  tokens = change_token token_id (coalesced_token to_iso now threshold) db.tokens;
}
