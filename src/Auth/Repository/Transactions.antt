-- ===== src/Auth/Repository/Transactions.antt =====
-- What each transaction keeps of the tables.
use seasonal_weather.Prelude.{
  ℕ, ◌≡◌, refl, arith, Bool, true, false, not, ◌||◌, Option, none, some, if◌then◌else◌, is_some,
  Text, text_eq, get, has, Bool-cases, inl, inr,
}
use seasonal_weather.Auth.{ClientRecord, AccessTokenRecord, Holds, HoldsOf}
use seasonal_weather.Auth.Repository.{
  AuthDatabase, add_audit, create_client, revoke_tokens, rotate_client, set_client_enabled,
  revoke_client, issue_token, may_issue, used_client, revoke_owned_token, coalesce_last_used,
  coalesced_client, coalesced_token, is_due,
}
use seasonal_weather.Auth.Repository.Kept.{
  LaterIn, LaterIn-put_new, LaterIn-put, ClientLater, TokenLater, ClientLater-refl, TokenLater-refl,
  both_revoked, same_clients, same_tokens, has-absent, revoke_tokens-LaterIn, change_client-LaterIn,
  change_token-LaterIn, Later, Later-refl,
}

pub create_client-Later :
    (c : ClientRecord) (actor : Text) (db : AuthDatabase)
    → Holds (λ (r : ClientRecord × AuthDatabase). Later db r.1) (create_client c actor db)
unfolding create_client add_audit Holds
create_client-Later c actor db = elim (Bool-cases (has c.client_id db.clients)) [
  | inl known ↦ rw known tt
  | inr new ↦ rw new (record {
    clients =
        LaterIn-put_new ClientLater c.client_id c db.clients ClientLater-refl
          (has-absent c.client_id db.clients new);
    tokens = same_tokens db.tokens;
  })
]

pub rotate_client-Later :
    (cid digest : Text) (now : ℕ) (actor : Text) (db : AuthDatabase)
    → HoldsOf
        (λ (r : ClientRecord × AuthDatabase). Later db r.1)
        (rotate_client cid digest now actor db)
unfolding rotate_client
rotate_client-Later cid digest now actor db = go (get cid db.clients) refl
  where
    go :
        (found : Option ClientRecord)
        → get cid db.clients ≡ found
        → HoldsOf
            (λ (r : ClientRecord × AuthDatabase). Later db r.1)
            (rotate_client cid digest now actor db)
    go none e = rw (e, rotate_client) tt
    go (some c) e = elim (Bool-cases (is_some c.revoked_at)) [
      | inl gone ↦ rw (e, rotate_client, gone) tt
      | inr live ↦
          rw (e, rotate_client, live)
            (unfold add_audit in
              record {
                clients = LaterIn-put ClientLater cid _ db.clients ClientLater-refl e (record {
                  scopes = refl;
                  expires = refl;
                  generation = omega arith;
                  revoked = both_revoked (is_some c.revoked_at);
                });
                tokens = revoke_tokens-LaterIn cid now db.tokens;
              })
    ]

pub set_client_enabled-Later :
    (cid : Text) (enabled : Bool) (now : ℕ) (actor : Text) (db : AuthDatabase)
    → HoldsOf
        (λ (r : ClientRecord × AuthDatabase). Later db r.1)
        (set_client_enabled cid enabled now actor db)
unfolding set_client_enabled
set_client_enabled-Later cid enabled now actor db = go (get cid db.clients) refl
  where
    tokens :
        (b : Bool)
        → LaterIn TokenLater db.tokens (if b then db.tokens else revoke_tokens cid now db.tokens)
    tokens true = same_tokens db.tokens
    tokens false = revoke_tokens-LaterIn cid now db.tokens

    go :
        (found : Option ClientRecord)
        → get cid db.clients ≡ found
        → HoldsOf
            (λ (r : ClientRecord × AuthDatabase). Later db r.1)
            (set_client_enabled cid enabled now actor db)
    go none e = rw (e, set_client_enabled) tt
    go (some c) e = elim (Bool-cases (is_some c.revoked_at)) [
      | inl gone ↦ rw (e, set_client_enabled, gone) tt
      | inr live ↦
          rw (e, set_client_enabled, live)
            (unfold add_audit in
              record {
                clients = LaterIn-put ClientLater cid _ db.clients ClientLater-refl e (record {
                  scopes = refl;
                  expires = refl;
                  generation = omega arith;
                  revoked = both_revoked (is_some c.revoked_at);
                });
                tokens = tokens enabled;
              })
    ]

pub revoke_client-Later :
    (cid : Text) (now : ℕ) (actor : Text) (db : AuthDatabase)
    → HoldsOf (λ (r : ClientRecord × AuthDatabase). Later db r.1) (revoke_client cid now actor db)
unfolding revoke_client
revoke_client-Later cid now actor db = go (get cid db.clients) refl
  where
    go :
        (found : Option ClientRecord)
        → get cid db.clients ≡ found
        → HoldsOf
            (λ (r : ClientRecord × AuthDatabase). Later db r.1)
            (revoke_client cid now actor db)
    go none e = rw (e, revoke_client) tt
    go (some c) e = elim (Bool-cases (is_some c.revoked_at)) [
      | inl gone ↦ rw (e, revoke_client, gone) (Later-refl db)
      | inr live ↦
          rw (e, revoke_client, live)
            (unfold add_audit in
              record {
                clients = LaterIn-put ClientLater cid _ db.clients ClientLater-refl e (record {
                  scopes = refl;
                  expires = refl;
                  generation = omega arith;
                  revoked = ground arith;
                });
                tokens = revoke_tokens-LaterIn cid now db.tokens;
              })
    ]

pub issue_token-Later :
    (c : ClientRecord) (t : AccessTokenRecord) (actor source_ip : Text) (request_id : Option Text)
    (db : AuthDatabase)
    → Holds
        (λ (r : AccessTokenRecord × AuthDatabase). Later db r.1)
        (issue_token c t actor source_ip request_id db)
unfolding issue_token add_audit Holds
issue_token-Later c t actor source_ip request_id db =
    elim (Bool-cases (may_issue c (get c.client_id db.clients))) [
      | inl may ↦ elim (Bool-cases (has t.token_id db.tokens)) [
        | inl known ↦ rw (may, known) tt
        | inr new ↦
            rw (may, new)
              (record {
                clients =
                    change_client-LaterIn c.client_id (used_client t.issued_at) db.clients
                      (λ row. used row);
                tokens =
                    LaterIn-put_new TokenLater t.token_id t db.tokens TokenLater-refl
                      (has-absent t.token_id db.tokens new);
              })
      ]
      | inr denied ↦ rw denied tt
    ]
  where
    used : (row : ClientRecord) → ClientLater row (used_client t.issued_at row)
    used row =
        unfold used_client in
        record {
          scopes = refl;
          expires = refl;
          generation = omega arith;
          revoked = both_revoked (is_some row.revoked_at);
        }

pub revoke_owned_token-Later :
    (tid cid : Text) (now : ℕ) (actor source_ip : Text) (request_id : Option Text)
    (db : AuthDatabase)
    → Later db (revoke_owned_token tid cid now actor source_ip request_id db).1
unfolding revoke_owned_token
revoke_owned_token-Later tid cid now actor source_ip request_id db = go (get tid db.tokens) refl
  where
    go :
        (found : Option AccessTokenRecord)
        → get tid db.tokens ≡ found
        → Later db (revoke_owned_token tid cid now actor source_ip request_id db).1
    go none e = rw (e, revoke_owned_token) (Later-refl db)
    go (some t) e = elim (Bool-cases (not (text_eq t.client_id cid) || is_some t.revoked_at)) [
      | inl kept ↦ rw (e, revoke_owned_token, kept) (Later-refl db)
      | inr gone ↦
          rw (e, revoke_owned_token, gone)
            (unfold add_audit in
              record {
                clients = same_clients db.clients;
                tokens = LaterIn-put TokenLater tid _ db.tokens TokenLater-refl e (record {
                  client = refl;
                  scopes = refl;
                  expires = refl;
                  revoked = ground arith;
                });
              })
    ]

pub coalesce_last_used-Later :
    (to_iso : ℕ → Text) (cid tid : Text) (now threshold : ℕ) (db : AuthDatabase)
    → Later db (coalesce_last_used to_iso cid tid now threshold db)
unfolding coalesce_last_used
coalesce_last_used-Later to_iso cid tid now threshold db = record {
  clients = change_client-LaterIn cid _ db.clients client;
  tokens = change_token-LaterIn tid _ db.tokens token;
}
  where
    client : (row : ClientRecord) → ClientLater row (coalesced_client to_iso now threshold row)
    client row =
        unfold coalesced_client used_client in
        elim (Bool-cases (is_due to_iso threshold row.last_used_at)) [
          | inl due ↦ rw due (record {
            scopes = refl;
            expires = refl;
            generation = omega arith;
            revoked = both_revoked (is_some row.revoked_at);
          })
          | inr fresh ↦ rw fresh (ClientLater-refl row)
        ]

    token : (row : AccessTokenRecord) → TokenLater row (coalesced_token to_iso now threshold row)
    token row =
        unfold coalesced_token in
        elim (Bool-cases (is_due to_iso threshold row.last_used_at)) [
          | inl due ↦ rw due (record {
            client = refl;
            scopes = refl;
            expires = refl;
            revoked = both_revoked (is_some row.revoked_at);
          })
          | inr fresh ↦ rw fresh (TokenLater-refl row)
        ]
