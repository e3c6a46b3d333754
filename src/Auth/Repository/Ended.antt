-- ===== src/Auth/Repository/Ended.antt =====
-- The transactions that end a client's tokens.
use seasonal_weather.Prelude.{
  ℕ, ◌≡◌, refl, ◌∙◌, ap, arith, true, false, Option, none, some, if◌then◌else◌, is_some, Text,
  text_eq_refl, get, ◌⊎◌, Bool-cases, inl, inr,
}
use seasonal_weather.Auth.{ClientRecord, AccessTokenRecord, HoldsOf}
use seasonal_weather.Auth.Repository.{
  AuthDatabase, revoked_token, revoke_tokens, add_audit, revoke_client, set_client_enabled,
  rotate_client,
}
use seasonal_weather.Auth.Repository.Kept.{Later, get-revoke_tokens}

-- a stored token that is revoked, or whose client is
pub record IsEnded (tid : Text) (db : AuthDatabase) : Type 0 where
  pub token : AccessTokenRecord
  pub stored : get tid db.tokens ≡ some token
  pub over :
      (is_some token.revoked_at ≡ true)
      ⊎ ((client : ClientRecord) × (get token.client_id db.clients ≡ some client)
          × (is_some client.revoked_at ≡ true))

pub Later-IsEnded :
    (tid : Text) (old new : AuthDatabase) → Later old new → IsEnded tid old → IsEnded tid new
Later-IsEnded tid old new later ended =
    let (t, stored, kept) = later.tokens tid ended.token ended.stored in
    record {
      token = t;
      stored = stored;
      over = elim ended.over [
        | inl gone ↦ inl (ground (arith, kept.revoked))
        | inr (c, there, gone) ↦
            let (c', there', kept') = later.clients ended.token.client_id c there in
            inr
              (c', ap (λ k. get k new.clients) kept.client ∙ there', ground (arith, kept'.revoked))
      ];
    }

-- the token after `revoke_tokens`
swept :
    (cid : Text) (now : ℕ) (db : AuthDatabase) (tid : Text) (t : AccessTokenRecord)
    → get tid db.tokens ≡ some t
    → t.client_id ≡ cid
    → (t' : AccessTokenRecord) × (get tid (revoke_tokens cid now db.tokens) ≡ some t')
      × (is_some t'.revoked_at ≡ true)
swept cid now db tid t stored own =
    (revoked_token cid now t, get-revoke_tokens cid now db.tokens tid t stored, gone)
  where
    coalesced : (o : Option ℕ) → is_some (if is_some o then o else some now) ≡ true
    coalesced none = refl
    coalesced (some at) = refl

    gone : is_some (revoked_token cid now t).revoked_at ≡ true
    gone = unfold revoked_token in rw (own, text_eq_refl cid) (coalesced t.revoked_at)

module _ (cid : Text) (now : ℕ) (actor : Text) (db : AuthDatabase) (tid : Text)
    (t : AccessTokenRecord) (stored : get tid db.tokens ≡ some t) (own : t.client_id ≡ cid) where
  abbrev Ends : Option (ClientRecord × AuthDatabase) → Type 0
  Ends = HoldsOf (λ (r : ClientRecord × AuthDatabase). IsEnded tid r.1)

  swept-IsEnded : (d : AuthDatabase) → d.tokens ≡ revoke_tokens cid now db.tokens → IsEnded tid d
  swept-IsEnded d same =
      let (t', there, gone) = swept cid now db tid t stored own in
      record { token = t'; stored = ap (get tid) same ∙ there; over = inl gone }

  pub revoke_client-IsEnded : Ends (revoke_client cid now actor db)
  unfolding revoke_client
  revoke_client-IsEnded = go (get cid db.clients) refl
    where
      go :
          (found : Option ClientRecord)
          → get cid db.clients ≡ found
          → Ends (revoke_client cid now actor db)
      go none e = rw (e, revoke_client) tt
      go (some c) e = elim (Bool-cases (is_some c.revoked_at)) [
        | inl gone ↦
            rw (e, revoke_client, gone)
              (record {
                token = t;
                stored = stored;
                over = inr (c, ap (λ k. get k db.clients) own ∙ e, gone);
              })
        | inr live ↦ rw (e, revoke_client, live) (unfold add_audit in swept-IsEnded _ refl)
      ]

  pub disable_client-IsEnded : Ends (set_client_enabled cid false now actor db)
  unfolding set_client_enabled
  disable_client-IsEnded = go (get cid db.clients) refl
    where
      go :
          (found : Option ClientRecord)
          → get cid db.clients ≡ found
          → Ends (set_client_enabled cid false now actor db)
      go none e = rw (e, set_client_enabled) tt
      go (some c) e = elim (Bool-cases (is_some c.revoked_at)) [
        | inl gone ↦ rw (e, set_client_enabled, gone) tt
        | inr live ↦ rw (e, set_client_enabled, live) (unfold add_audit in swept-IsEnded _ refl)
      ]

  pub rotate_client-IsEnded : (digest : Text) → Ends (rotate_client cid digest now actor db)
  unfolding rotate_client
  rotate_client-IsEnded digest = go (get cid db.clients) refl
    where
      go :
          (found : Option ClientRecord)
          → get cid db.clients ≡ found
          → Ends (rotate_client cid digest now actor db)
      go none e = rw (e, rotate_client) tt
      go (some c) e = elim (Bool-cases (is_some c.revoked_at)) [
        | inl gone ↦ rw (e, rotate_client, gone) tt
        | inr live ↦ rw (e, rotate_client, live) (unfold add_audit in swept-IsEnded _ refl)
      ]
