-- ===== src/Auth/Clients.antt =====
-- seasonalweather/auth/service.py: the calls that manage clients. A call that raises leaves the
-- service as it was, so a result carries the service only where it is `ok`.
use seasonal_weather.Prelude.{
  ℕ, Bool, true, not, ◌&&◌, ◌||◌, Option, none, some, List, nonempty, Text, codes, text_eq, text_le,
  sort_by,
}
use seasonal_weather.Auth.{
  ClientRecord, runtime_error, Result, ok, raised, require, ◌>>=◌, client_not_found,
  credential_text,
}
use seasonal_weather.Auth.Policy.{normalize_scopes, normalize_cidrs}
use seasonal_weather.Auth.Limits.{
  invalid, normalize_subject, normalize_prefixes, normalize_expiration,
}
use seasonal_weather.Auth.Repository
use seasonal_weather.Auth.Repository.{
  AuthDatabase, get_client, get_token, coalesce_last_used, revoke_owned_token,
}

pub record AuthenticationService : Type 0 where
  pub repository : AuthDatabase
  pub last_used_persisted : List ((Text × Text) × ℕ)

pub record IssuedCredential : Type 0 where
  pub client : ClientRecord
  pub credential : Text

-- `None` from the repository is the error of an unknown client
unfoldable pub found :
    AuthenticationService
    → Option (ClientRecord × AuthDatabase)
    → Result (ClientRecord × AuthenticationService)
found s none = raised client_not_found
found s (some (client, db)) = ok (client, record s { repository = db })

-- The libraries that the service calls: SHA-256 as hexadecimal text, `ipaddress.ip_address` and
-- `ipaddress.ip_network` (none where they raise), `address in network`, `posixpath.normpath`, and the
-- text of an instant.
pub record Libraries : Type 1 where
  pub Address : Type 0
  pub secret_digest : Text → Text
  pub ip_address : Text → Option Address
  pub in_network : Address → Text → Bool
  pub ip_network : Text → Option Text
  pub normpath : Text → Text
  pub to_iso : ℕ → Text

module _ (lib : Libraries) where
  -- the random id and secret are arguments
  unfoldable pub create_client :
      Text
      → List Text
      → List Text
      → Bool
      → List Text
      → Option ℕ
      → Text
      → ℕ
      → Text × Text
      → AuthenticationService
      → Result (IssuedCredential × AuthenticationService)
  create_client subject scopes route_prefixes unrestricted cidrs expires_at actor now
        (client_id, secret) s =
      normalize_subject subject >>= λ clean_subject.
      require
        (not unrestricted && nonempty route_prefixes
          || unrestricted && not (nonempty route_prefixes))
        (invalid (codes "invalid_route_policy"))
      >>= λ _. normalize_prefixes lib.normpath route_prefixes >>= λ prefixes.
          normalize_scopes scopes >>= λ clean_scopes.
          normalize_cidrs lib.ip_network cidrs >>= λ clean_cidrs.
          normalize_expiration expires_at now >>= λ expires.
          Repository.create_client
            (record {
              client_id = client_id;
              subject = clean_subject;
              scopes = clean_scopes;
              route_prefixes = sort_by text_le prefixes;
              unrestricted_routes = unrestricted;
              cidrs = clean_cidrs;
              enabled = true;
              created_at = now;
              updated_at = now;
              expires_at = expires;
              revoked_at = none;
              last_used_at = none;
              generation = 1;
              verifier_algorithm = codes "sha256";
              verifier_digest = lib.secret_digest secret;
            })
            actor s.repository
          >>= λ (client, db). ok (
            record {
              client = client;
              credential = credential_text (codes "swc_") client_id secret;
            },
            record s { repository = db },
          )

  unfoldable pub rotate_client :
      Text
      → Text
      → ℕ
      → Text × Text
      → AuthenticationService
      → Result (IssuedCredential × AuthenticationService)
  rotate_client client_id actor now (public_id, secret) s =
      require (not (text_eq public_id client_id)) runtime_error >>= λ _.
      found s (Repository.rotate_client client_id (lib.secret_digest secret) now actor s.repository)
      >>= λ (client, s'). ok (
        record { client = client; credential = credential_text (codes "swc_") client_id secret },
        s',
      )

  unfoldable pub set_enabled :
      Text → Bool → Text → ℕ → AuthenticationService → Result (ClientRecord × AuthenticationService)
  set_enabled client_id enabled actor now s =
      found s (Repository.set_client_enabled client_id enabled now actor s.repository)

  unfoldable pub revoke_client :
      Text → Text → ℕ → AuthenticationService → Result (ClientRecord × AuthenticationService)
  revoke_client client_id actor now s =
      found s (Repository.revoke_client client_id now actor s.repository)
