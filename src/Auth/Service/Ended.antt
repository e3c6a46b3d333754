-- ===== src/Auth/Service/Ended.antt =====
-- The ways to take a client's access away, and that they last.
use seasonal_weather.Prelude.{
  ℕ, ◌≡◌, refl, arith, Bool, true, false, Option, none, some, List, if◌then◌else◌, is_some, Text,
  get, Bool-cases, inl, inr,
}
use mathlib.Core.Path.{subst}
use seasonal_weather.Auth.{
  ClientRecord, AccessTokenRecord, Result, ok, raised, ◌>>=◌, ParsedCredential, parse_access_token,
  invalid_token, Holds, HoldsOf, Holds-then, Holds-bind,
}
use seasonal_weather.Auth.Repository.{AuthDatabase}
use seasonal_weather.Auth.Repository.Ended
use seasonal_weather.Auth.Repository.Ended.{IsEnded, Later-IsEnded}
use seasonal_weather.Auth.Clients.{
  Libraries, AuthenticationService, IssuedCredential, found, rotate_client, set_enabled,
  revoke_client,
}
use seasonal_weather.Auth.Service.{
  authorize_access, is_valid_token, is_valid_client, valid_token, valid_token_client,
}
use seasonal_weather.Auth.Service.Revocation.{Op, apply_all, apply_all-Later}

module _ (lib : Libraries) where
  no_valid_token :
      (secret : Text) (now : ℕ) (t : AccessTokenRecord)
      → is_some t.revoked_at ≡ true
      → is_valid_token lib secret now t ≡ false
  unfolding is_valid_token
  no_valid_token secret now t gone = ground arith

  no_valid_client :
      (t : AccessTokenRecord) (now : ℕ) (c : ClientRecord)
      → is_some c.revoked_at ≡ true
      → is_valid_client lib t now c ≡ false
  unfolding is_valid_client
  no_valid_client t now c gone = ground arith

  valid_token_stored :
      (raw : Text) (now : ℕ) (s : AuthenticationService) (p : ParsedCredential)
      (t : AccessTokenRecord)
      → parse_access_token raw ≡ some p
      → get p.public_id s.repository.tokens ≡ some t
      → valid_token lib raw now s
        ≡ (if is_valid_token lib p.secret now t then ok t else raised invalid_token)
  unfolding valid_token ◌>>=◌
  valid_token_stored raw now s p t parsed stored =
      elim (Bool-cases (is_valid_token lib p.secret now t)) [
        | inl good ↦ rw (parsed, stored, good, valid_token) refl
        | inr bad ↦ rw (parsed, stored, bad, valid_token) refl
      ]

  valid_token_client_revoked :
      (t : AccessTokenRecord) (now : ℕ) (s : AuthenticationService) (c : ClientRecord)
      → get t.client_id s.repository.clients ≡ some c
      → is_some c.revoked_at ≡ true
      → valid_token_client lib t now s ≡ raised invalid_token
  unfolding valid_token_client ◌>>=◌
  valid_token_client_revoked t now s c there gone =
      rw (there, no_valid_client t now c gone, valid_token_client) refl

  authorize_access-IsEnded :
      (writable : Bool) (raw ip path : Text) (token_at client_at now : ℕ)
      (s : AuthenticationService) (p : ParsedCredential)
      → parse_access_token raw ≡ some p
      → IsEnded p.public_id s.repository
      → authorize_access lib writable raw ip path token_at client_at now s ≡ raised invalid_token
  unfolding authorize_access ◌>>=◌
  authorize_access-IsEnded writable raw ip path token_at client_at now s p parsed ended =
      let t = ended.token in
      let first = valid_token_stored raw token_at s p t parsed ended.stored in
      elim (Bool-cases (is_valid_token lib p.secret token_at t)) [
        | inl valid ↦ elim ended.over [
          | inl gone ↦ cc (valid, no_valid_token p.secret token_at t gone)
          | inr (c, there, gone) ↦
              rw (first, valid) (rw (valid_token_client_revoked t client_at s c there gone) refl)
        ]
        | inr invalid ↦ rw (first, invalid) refl
      ]

-- the ways to take a client's tokens away, with the actor, the clock and the random text
pub data Ending : Type 0 where
  revoking : Text → ℕ → Ending
  disabling : Text → ℕ → Ending
  rotating : Text → ℕ → Text × Text → Ending

found-IsEnded :
    (tid : Text) (s : AuthenticationService) (o : Option (ClientRecord × AuthDatabase))
    → HoldsOf (λ (r : ClientRecord × AuthDatabase). IsEnded tid r.1) o
    → Holds (λ (r : ClientRecord × AuthenticationService). IsEnded tid r.1.repository) (found s o)
unfolding found Holds
found-IsEnded tid s none h = tt
found-IsEnded tid s (some (c, db)) h = h

module _ (lib : Libraries) where
  unfoldable pub end_client : Ending → Text → AuthenticationService → Result AuthenticationService
  end_client (revoking actor now) cid s =
      revoke_client lib cid actor now s >>= λ (client, s'). ok s'
  end_client (disabling actor now) cid s =
      set_enabled lib cid false actor now s >>= λ (client, s'). ok s'
  end_client (rotating actor now random) cid s =
      rotate_client lib cid actor now random s >>= λ (issued, s'). ok s'

  end_client-IsEnded :
      (e : Ending) (cid : Text) (s : AuthenticationService) (tid : Text) (t : AccessTokenRecord)
      → get tid s.repository.tokens ≡ some t
      → t.client_id ≡ cid
      → Holds (λ (s' : AuthenticationService). IsEnded tid s'.repository) (end_client e cid s)
  unfolding end_client set_enabled revoke_client rotate_client Holds
  end_client-IsEnded (revoking actor now) cid s tid t stored own =
      Holds-bind P Q _ _
        (found-IsEnded tid s _
          (Ended.revoke_client-IsEnded cid now actor s.repository tid t stored own))
        (λ r done. done)
    where
      P : AuthenticationService → Type 0
      P s' = IsEnded tid s'.repository

      Q : ClientRecord × AuthenticationService → Type 0
      Q r = IsEnded tid r.1.repository
  end_client-IsEnded (disabling actor now) cid s tid t stored own =
      Holds-bind P Q _ _
        (found-IsEnded tid s _
          (Ended.disable_client-IsEnded cid now actor s.repository tid t stored own))
        (λ r done. done)
    where
      P : AuthenticationService → Type 0
      P s' = IsEnded tid s'.repository

      Q : ClientRecord × AuthenticationService → Type 0
      Q r = IsEnded tid r.1.repository
  end_client-IsEnded (rotating actor now (id, secret)) cid s tid t stored own =
      Holds-bind P R _ _
        (Holds-then R _ _ (λ _.
          Holds-bind R Q _ _
            (found-IsEnded tid s _ (
              Ended.rotate_client-IsEnded cid now actor s.repository tid t stored own
                (lib.secret_digest secret)))
            (λ r done. done)))
        (λ r done. done)
    where
      P : AuthenticationService → Type 0
      P s' = IsEnded tid s'.repository

      Q : ClientRecord × AuthenticationService → Type 0
      Q r = IsEnded tid r.1.repository

      R : IssuedCredential × AuthenticationService → Type 0
      R r = IsEnded tid r.1.repository

  -- Once a client is revoked, disabled or rotated, a token of it that was stored before is refused as
  -- invalid after any further calls, from any address, for any path and at any time.
  pub authorize_access-end_client :
      (e : Ending) (cid : Text) (s s' : AuthenticationService) (raw : Text) (p : ParsedCredential)
      (t : AccessTokenRecord) (ops : List Op) (writable : Bool) (ip path : Text)
      (token_at client_at now : ℕ)
      → end_client e cid s ≡ ok s'
      → parse_access_token raw ≡ some p
      → get p.public_id s.repository.tokens ≡ some t
      → t.client_id ≡ cid
      → authorize_access lib writable raw ip path token_at client_at now (apply_all lib ops s')
        ≡ raised invalid_token
  authorize_access-end_client e cid s s' raw p t ops writable ip path token_at client_at now done
        parsed stored own =
      authorize_access-IsEnded lib writable raw ip path token_at client_at now
        (apply_all lib ops s') p parsed
        (Later-IsEnded p.public_id s'.repository (apply_all lib ops s').repository
          (apply_all-Later lib ops s')
          (unfold Holds in
            subst (Holds (λ (x : AuthenticationService). IsEnded p.public_id x.repository)) done
              (end_client-IsEnded e cid s p.public_id t stored own)))
