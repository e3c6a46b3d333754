-- ===== src/Auth/Repository/Kept.antt =====
-- What the tables keep: clients and tokens stay, with their scopes and their expiry, and what is
-- revoked stays revoked.
use seasonal_weather.Prelude.{
  ℕ, ◌≤◌, ◌≡◌, refl, ◌∙◌, arith, Bool, true, false, not, ◌&&◌, Option, none, some, [], ◌∷◌, is_some,
  Text, text_eq, text_eq_iff, Dict, get, put, has, get-put, Bool-cases, inl, inr,
}
use mathlib.Core.Path.{subst}
use seasonal_weather.Auth.{ClientRecord, AccessTokenRecord}
use seasonal_weather.Auth.Repository.{
  AuthDatabase, revoked_token, revoke_tokens, change_client, change_token,
}

-- each entry is still there, and in a relation to what it was
module _ {V : Type 0} (R : V → V → Type 0) where
  abbrev pub LaterIn : Dict V → Dict V → Type 0
  LaterIn d d' = (k : Text) (v : V) → get k d ≡ some v → (v' : V) × (get k d' ≡ some v') × R v v'

  pub LaterIn-put_new :
      (k : Text) (v : V) (d : Dict V) → ((w : V) → R w w) → get k d ≡ none → LaterIn d (put k v d)
  LaterIn-put_new k v d same new j w e = (w, kept, same w)
    where
      kept : get j (put k v d) ≡ some w
      kept = elim (Bool-cases (text_eq k j)) [
        | inl hit ↦ ground (arith, hit, text_eq_iff k j, new, e)
        | inr miss ↦ get-put j k v d ∙ rw miss e
      ]

  pub LaterIn-put :
      (k : Text) (v : V) (d : Dict V) {old : V}
      → ((w : V) → R w w)
      → get k d ≡ some old
      → R old v
      → LaterIn d (put k v d)
  LaterIn-put k v d {old} same there grows j w e = elim (Bool-cases (text_eq k j)) [
    | inl hit ↦ (
      v,
      get-put j k v d ∙ rw hit refl,
      subst (λ u. R u v) (ground (arith, hit, text_eq_iff k j, there, e)) grows,
    )
    | inr miss ↦ (w, get-put j k v d ∙ rw miss e, same w)
  ]

-- what a client keeps
pub record ClientLater (old new : ClientRecord) : Type 0 where
  pub scopes : new.scopes ≡ old.scopes
  pub expires : new.expires_at ≡ old.expires_at
  pub generation : old.generation ≤ new.generation
  pub revoked : (is_some old.revoked_at && not (is_some new.revoked_at)) ≡ false

-- what a token keeps
pub record TokenLater (old new : AccessTokenRecord) : Type 0 where
  pub client : new.client_id ≡ old.client_id
  pub scopes : new.scopes ≡ old.scopes
  pub expires : new.expires_at ≡ old.expires_at
  pub revoked : (is_some old.revoked_at && not (is_some new.revoked_at)) ≡ false

pub both_revoked : (b : Bool) → (b && not b) ≡ false
both_revoked true = refl
both_revoked false = refl

revoked_trans : (a b c : Bool) → (a && not b) ≡ false → (b && not c) ≡ false → (a && not c) ≡ false
revoked_trans a b c h k = ground arith

pub ClientLater-refl : (c : ClientRecord) → ClientLater c c
ClientLater-refl c = record {
  scopes = refl;
  expires = refl;
  generation = omega arith;
  revoked = both_revoked (is_some c.revoked_at);
}

pub TokenLater-refl : (t : AccessTokenRecord) → TokenLater t t
TokenLater-refl t = record {
  client = refl;
  scopes = refl;
  expires = refl;
  revoked = both_revoked (is_some t.revoked_at);
}

-- a database after some transactions
pub record Later (old new : AuthDatabase) : Type 0 where
  pub clients : LaterIn ClientLater old.clients new.clients
  pub tokens : LaterIn TokenLater old.tokens new.tokens

pub Later-refl : (db : AuthDatabase) → Later db db
Later-refl db = record {
  clients = λ k c e. (c, e, ClientLater-refl c);
  tokens = λ k t e. (t, e, TokenLater-refl t);
}

pub Later-trans : (a b c : AuthDatabase) → Later a b → Later b c → Later a c
Later-trans a b c f g = record {
  clients = λ k x e.
      let (y, ey, xy) = f.clients k x e in
      let (z, ez, yz) = g.clients k y ey in
      (
        z,
        ez,
        record {
          scopes = yz.scopes ∙ xy.scopes;
          expires = yz.expires ∙ xy.expires;
          generation = omega (arith, xy.generation, yz.generation);
          revoked = revoked_trans _ _ _ xy.revoked yz.revoked;
        },
      );
  tokens = λ k x e.
      let (y, ey, xy) = f.tokens k x e in
      let (z, ez, yz) = g.tokens k y ey in
      (
        z,
        ez,
        record {
          client = yz.client ∙ xy.client;
          scopes = yz.scopes ∙ xy.scopes;
          expires = yz.expires ∙ xy.expires;
          revoked = revoked_trans _ _ _ xy.revoked yz.revoked;
        },
      );
}

pub same_clients : (d : Dict ClientRecord) → LaterIn ClientLater d d
same_clients d k c e = (c, e, ClientLater-refl c)

pub same_tokens : (d : Dict AccessTokenRecord) → LaterIn TokenLater d d
same_tokens d k t e = (t, e, TokenLater-refl t)

pub has-absent : {V : Type 0} (k : Text) (d : Dict V) → has k d ≡ false → get k d ≡ none
has-absent k d h = ground arith

revoked_token-TokenLater :
    (cid : Text) (now : ℕ) (t : AccessTokenRecord) → TokenLater t (revoked_token cid now t)
unfolding revoked_token
revoked_token-TokenLater cid now t = elim (Bool-cases (text_eq t.client_id cid)) [
  | inl own ↦
      rw own (record { client = refl; scopes = refl; expires = refl; revoked = ground arith })
  | inr other ↦ rw other (TokenLater-refl t)
]

pub get-revoke_tokens :
    (cid : Text) (now : ℕ) (d : Dict AccessTokenRecord) (k : Text) (t : AccessTokenRecord)
    → get k d ≡ some t
    → get k (revoke_tokens cid now d) ≡ some (revoked_token cid now t)
unfolding revoke_tokens get
get-revoke_tokens cid now [] k t e = cc
get-revoke_tokens cid now ((j, u) ∷ d) k t e = elim (Bool-cases (text_eq j k)) [
  | inl hit ↦ ground (arith, hit)
  | inr miss ↦ ground (arith, miss, get-revoke_tokens cid now d k t)
]

pub revoke_tokens-LaterIn :
    (cid : Text) (now : ℕ) (d : Dict AccessTokenRecord)
    → LaterIn TokenLater d (revoke_tokens cid now d)
revoke_tokens-LaterIn cid now d k t e =
    (revoked_token cid now t, get-revoke_tokens cid now d k t e, revoked_token-TokenLater cid now t)

pub change_client-LaterIn :
    (k : Text) (change : ClientRecord → ClientRecord) (d : Dict ClientRecord)
    → ((c : ClientRecord) → ClientLater c (change c))
    → LaterIn ClientLater d (change_client k change d)
unfolding change_client
change_client-LaterIn k change d grows = go (get k d) refl
  where
    go :
        (found : Option ClientRecord)
        → get k d ≡ found
        → LaterIn ClientLater d (change_client k change d)
    go none e = rw (e, change_client) (same_clients d)
    go (some c) e =
        rw (e, change_client) (LaterIn-put ClientLater k (change c) d ClientLater-refl e (grows c))

pub change_token-LaterIn :
    (k : Text) (change : AccessTokenRecord → AccessTokenRecord) (d : Dict AccessTokenRecord)
    → ((t : AccessTokenRecord) → TokenLater t (change t))
    → LaterIn TokenLater d (change_token k change d)
unfolding change_token
change_token-LaterIn k change d grows = go (get k d) refl
  where
    go :
        (found : Option AccessTokenRecord)
        → get k d ≡ found
        → LaterIn TokenLater d (change_token k change d)
    go none e = rw (e, change_token) (same_tokens d)
    go (some t) e =
        rw (e, change_token) (LaterIn-put TokenLater k (change t) d TokenLater-refl e (grows t))
