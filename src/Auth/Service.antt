-- ===== src/Auth/Service.antt =====
-- seasonalweather/auth/service.py: access tokens, and who may call which route. A call that
-- raises leaves the service as it was, so a result carries the service only where it is `ok`.
pub mod Revocation
pub mod Ended
mod Examples
use seasonal_weather.Prelude.{
  ℕ, zero, suc, ◌+◌, ◌-◌, ◌*◌, ◌/◌, Bool, true, false, not, ◌&&◌, ◌||◌, Option, none, some, List,
  [], ◌∷◌, ◌++◌, any, map, if◌then◌else◌, leb, ltb, ◌==◌, nonempty, length, is_some, ℤ, pos, negsuc,
  Text, codes, text_eq, text_in, text_le, strip, sort_by,
}
use seasonal_weather.Auth.{
  ClientRecord, AccessTokenRecord, AuthenticatedClient, AccessPrincipal, AuthError,
  authentication_error, runtime_error, Result, ok, raised, require, ◌>>=◌, invalid_client,
  invalid_token, policy_denied, client_not_found, ParsedCredential, parse_client_credential,
  parse_access_token, credential_text, verify_secret,
}
use seasonal_weather.Auth.Policy.{
  normalize_scopes, normalize_route_prefix, normalize_cidrs, route_is_allowed, source_allowed,
  scopes_are_write_capable, has_duplicates,
}
use seasonal_weather.Auth.Limits.{
  TokenPolicy, second, invalid, normalize_subject, normalize_prefixes, normalize_expiration,
  has_expired, requested_scopes, requested_ttl, token_expiration,
}
use seasonal_weather.Auth.Repository
use seasonal_weather.Auth.Repository.{
  AuthDatabase, get_client, get_token, coalesce_last_used, revoke_owned_token,
}
use seasonal_weather.Auth.Clients.{AuthenticationService, Libraries}

pub record IssuedAccessToken : Type 0 where
  pub access_token : Text
  pub expires_in : ℕ
  pub scopes : List Text

-- the entry of `_last_used_persisted` under a client and a token
pub last_persisted : Text → Text → List ((Text × Text) × ℕ) → Option ℕ
last_persisted client_id token_id [] = none
last_persisted client_id token_id (((c, t), at) ∷ rest) =
    let later = last_persisted client_id token_id rest in
    if text_eq c client_id && text_eq t token_id then some at else later

-- less than a minute since the last write
pub is_fresh : ℕ → Option ℕ → Bool
is_fresh now none = false
is_fresh now (some previous) = ltb now (previous + 60 * second)

module _ (lib : Libraries) where
  -- the guards on a client that presents a secret
  pub is_authentic : Text → ℕ → ClientRecord → Bool
  is_authentic secret now client =
      text_eq client.verifier_algorithm (codes "sha256")
      && verify_secret lib.secret_digest secret client.verifier_digest
      && client.enabled
      && not (is_some client.revoked_at)
      && not (has_expired now client.expires_at)

  pub authenticate_client :
      Text → Text → ℕ → AuthenticationService → Result (ClientRecord × AuthenticatedClient)
  authenticate_client raw_credential source_ip now s =
      elim (parse_client_credential raw_credential) [
        | none ↦ raised invalid_client
        | some parsed ↦ elim (get_client parsed.public_id s.repository) [
          | none ↦ raised invalid_client
          | some client ↦ require (is_authentic parsed.secret now client) invalid_client >>= λ _.
              require (source_allowed lib.ip_address lib.in_network source_ip client.cidrs)
                policy_denied
              >>= λ _. ok (
                client,
                record {
                  client_id = client.client_id;
                  subject = client.subject;
                  source_ip = source_ip;
                },
              )
        ]
      ]

  -- the token that a client gets
  pub new_token : ClientRecord → Text → Text → List Text → ℕ → ℕ → AccessTokenRecord
  new_token client token_id secret scopes issued_at expires_at = record {
    token_id = token_id;
    client_id = client.client_id;
    scopes = scopes;
    issued_at = issued_at;
    expires_at = expires_at;
    revoked_at = none;
    last_used_at = none;
    write_capable = scopes_are_write_capable scopes;
    client_generation = client.generation;
    verifier_algorithm = codes "sha256";
    verifier_digest = lib.secret_digest secret;
  }

  -- the clock is read twice: for the client, and for the token
  pub issue_token :
      TokenPolicy
      → Text
      → Text
      → Option (List Text)
      → Option ℤ
      → Option Text
      → ℕ
      → ℕ
      → Text × Text
      → AuthenticationService
      → Result (IssuedAccessToken × AuthenticationService)
  issue_token policy client_credential source_ip requested ttl request_id checked_at now
        (token_id, secret) s =
      authenticate_client client_credential source_ip checked_at s >>= λ (client, caller).
      requested_scopes client requested >>= λ scopes.
      requested_ttl policy ttl (scopes_are_write_capable scopes) >>= λ seconds.
      token_expiration policy client now seconds >>= λ (expires_in, expires_at).
      Repository.issue_token client (new_token client token_id secret scopes now expires_at)
        caller.subject source_ip request_id s.repository
      >>= λ (token, db). ok (
        record {
          access_token = credential_text (codes "swa_") token_id secret;
          expires_in = expires_in;
          scopes = sort_by text_le scopes;
        },
        record s { repository = db },
      )

  -- the token that the request names, where it is one of the client's
  pub owned_token : ClientRecord → ParsedCredential → Option AccessTokenRecord → Bool
  owned_token client parsed none = false
  owned_token client parsed (some token) =
      text_eq token.client_id client.client_id
      && text_eq token.verifier_algorithm (codes "sha256")
      && verify_secret lib.secret_digest parsed.secret token.verifier_digest

  -- the end of `revoke_token`, for a client that is authenticated
  pub give_back :
      ClientRecord
      → Text
      → Text
      → Option Text
      → ℕ
      → Option ParsedCredential
      → AuthenticationService
      → Result AuthenticationService
  give_back client actor source_ip request_id now none s =
      raised (invalid (codes "invalid_revocation_target"))
  give_back client actor source_ip request_id now (some parsed) s =
      if owned_token client parsed (get_token parsed.public_id s.repository)
      then ok (record s {
        repository =
            (revoke_owned_token parsed.public_id client.client_id now actor source_ip request_id
              s.repository).1;
      })
      else ok s

  pub revoke_token :
      Text
      → Text
      → Text
      → Option Text
      → ℕ
      → ℕ
      → AuthenticationService
      → Result AuthenticationService
  revoke_token client_credential target_token source_ip request_id checked_at now s =
      authenticate_client client_credential source_ip checked_at s >>= λ (client, caller).
      give_back client caller.subject source_ip request_id now (parse_access_token target_token) s

  -- the guards of `_valid_token` on the token that was found
  pub is_valid_token : Text → ℕ → AccessTokenRecord → Bool
  is_valid_token secret now token =
      text_eq token.verifier_algorithm (codes "sha256")
      && verify_secret lib.secret_digest secret token.verifier_digest
      && not (is_some token.revoked_at)
      && not (leb token.expires_at now)

  pub valid_token : Text → ℕ → AuthenticationService → Result AccessTokenRecord
  valid_token raw_token now s = elim (parse_access_token raw_token) [
    | none ↦ raised invalid_token
    | some parsed ↦ elim (get_token parsed.public_id s.repository) [
      | none ↦ raised invalid_token
      | some token ↦
          require (is_valid_token parsed.secret now token) invalid_token >>= λ _. ok token
    ]
  ]

  -- the guards of `_valid_token_client`
  pub is_valid_client : AccessTokenRecord → ℕ → ClientRecord → Bool
  is_valid_client token now client =
      client.enabled
      && not (is_some client.revoked_at)
      && not (has_expired now client.expires_at)
      && token.client_generation == client.generation

  pub valid_token_client : AccessTokenRecord → ℕ → AuthenticationService → Result ClientRecord
  valid_token_client token now s = elim (get_client token.client_id s.repository) [
    | none ↦ raised invalid_token
    | some client ↦ require (is_valid_client token now client) invalid_token >>= λ _. ok client
  ]

  pub enforce_access_policy : ClientRecord → Text → Text → Result {0} Unit
  enforce_access_policy client source_ip path =
      require (source_allowed lib.ip_address lib.in_network source_ip client.cidrs) policy_denied
      >>= λ _.
          require (route_is_allowed path client.route_prefixes client.unrestricted_routes)
            policy_denied

  -- `writable` says whether the write succeeds; a failure is logged
  pub record_last_used : Bool → Text → Text → ℕ → AuthenticationService → AuthenticationService
  record_last_used writable client_id token_id now s =
      if is_fresh now (last_persisted client_id token_id s.last_used_persisted) || not writable
      then s
      else record {
        repository =
            coalesce_last_used lib.to_iso client_id token_id now (now - 60 * second) s.repository;
        last_used_persisted = ((client_id, token_id), now) ∷ s.last_used_persisted;
      }

  -- the clock is read for the token, for the client, and for the last use
  pub authorize_access :
      Bool
      → Text
      → Text
      → Text
      → ℕ
      → ℕ
      → ℕ
      → AuthenticationService
      → Result (AccessPrincipal × AuthenticationService)
  authorize_access writable raw_token source_ip path token_at client_at now s =
      valid_token raw_token token_at s >>= λ token.
      valid_token_client token client_at s >>= λ client.
      enforce_access_policy client source_ip path >>= λ _. ok (
        record {
          client_id = client.client_id;
          token_id = token.token_id;
          subject = client.subject;
          scopes = token.scopes;
          source_ip = source_ip;
        },
        record_last_used writable client.client_id token.token_id now s,
      )
