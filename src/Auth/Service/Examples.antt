-- ===== src/Auth/Service/Examples.antt =====
-- A service with one client and one token, and the theorems at its inputs.
use seasonal_weather.Prelude.{
  text_in, starts_with, arith, is_digit, ◌≡◌, refl, true, false, none, some, List, [], ◌∷◌, Text,
  codes, text_eq, get,
}
use seasonal_weather.Auth.Policy.{route_is_allowed}
use seasonal_weather.Auth.Routes.{Opens, route_is_allowed-Opens}
use seasonal_weather.Auth.Credentials.{credential_text_lem}
use seasonal_weather.Auth.{
  parse_client_credential, credential_text, ◌>>=◌, parse_credential, all_of, is_id_char,
  is_body_char, ClientRecord, AccessTokenRecord, raised, parse_access_token, invalid_token,
}
use seasonal_weather.Auth.Repository.{set_client_enabled}
use seasonal_weather.Auth.Repository.Kept.{Later}
use seasonal_weather.Auth.Clients.{Libraries, AuthenticationService, set_enabled, found}
use seasonal_weather.Auth.Service.{authorize_access}
use seasonal_weather.Auth.Limits.{TokenPolicy, too_soon, token_expiration}
use seasonal_weather.Auth.Service.Revocation.{Op, enable, apply_all, apply_all-Later, after_alone}
use seasonal_weather.Auth.Limits.Lifetime.{Serves, token_expiration_lem}
use seasonal_weather.Auth.Service.Ended.{Ending, disabling, end_client, authorize_access-end_client}

-- libraries for one network, whose digest is the secret itself
abbrev plain : Libraries
plain = record {
  Address = Text;
  secret_digest = λ s. s;
  ip_address = λ s. some s;
  in_network = λ a n. text_eq a n;
  ip_network = λ s. some s;
  normpath = λ s. s;
  to_iso = λ n. n ∷ [];
}

abbrev client : ClientRecord
client = record {
  client_id = codes "0123456789abcdef01234567";
  subject = codes "console";
  scopes = codes "read:status" ∷ [];
  route_prefixes = codes "/v1" ∷ [];
  unrestricted_routes = false;
  cidrs = codes "127.0.0.1" ∷ [];
  enabled = true;
  created_at = 0;
  updated_at = 0;
  expires_at = none;
  revoked_at = none;
  last_used_at = none;
  generation = 1;
  verifier_algorithm = codes "sha256";
  verifier_digest = codes "s";
}

abbrev secret : Text
secret = codes "0123456789012345678901234567890123456789012"

abbrev token : AccessTokenRecord
token = record {
  token_id = codes "aaaaaaaaaaaaaaaaaaaaaaaa";
  client_id = client.client_id;
  scopes = codes "read:status" ∷ [];
  issued_at = 0;
  expires_at = 900000000;
  revoked_at = none;
  last_used_at = none;
  write_capable = false;
  client_generation = 1;
  verifier_algorithm = codes "sha256";
  verifier_digest = secret;
}

abbrev console : AuthenticationService
console = record {
  repository = record {
    clients = (client.client_id, client) ∷ [];
    tokens = (token.token_id, token) ∷ [];
    audit = [];
  };
  last_used_persisted = [];
}

abbrev raw : Text
raw = codes "swa_aaaaaaaaaaaaaaaaaaaaaaaa.0123456789012345678901234567890123456789012"

abbrev disable : Ending
disable = disabling (codes "local-cli") 5

abbrev later : List Op
later = enable client.client_id true (codes "local-cli") 6 ∷ []

abbrev limits : TokenPolicy
limits = record {
  minimum_ttl_seconds = 60;
  default_ttl_seconds = 900;
  maximum_read_ttl_seconds = 3600;
  maximum_write_ttl_seconds = 900;
}

-- a client with 100 seconds left
abbrev leaving : ClientRecord
leaving = record client { expires_at = some 100000000 }

token_expiration_lem_example : Serves limits leaving 0 900 (100, 100000000)
unfolding token_expiration too_soon
token_expiration_lem_example =
    token_expiration_lem limits leaving 0 900 (100, 100000000) (omega arith) (omega arith) refl

apply_all-Later_example : Later console.repository (apply_all plain later console).repository
apply_all-Later_example = apply_all-Later plain later console

authorize_access-end_client_example :
    authorize_access plain true raw (codes "127.0.0.1") (codes "/v1/status") 7 7 7 (
      apply_all plain later
        (after_alone console (end_client plain disable client.client_id console)))
    ≡ raised invalid_token
unfolding end_client ◌>>=◌ set_enabled found set_client_enabled get parse_access_token
    parse_credential all_of is_id_char is_digit is_body_char
authorize_access-end_client_example =
    authorize_access-end_client plain disable client.client_id console
      (after_alone console (end_client plain disable client.client_id console)) raw
      (record { public_id = token.token_id; secret = secret }) token later true (codes "127.0.0.1")
      (codes "/v1/status") 7 7 7 refl refl refl refl

credential_text_lem_example :
    (parse_client_credential (credential_text (codes "swc_") token.token_id secret)
      ≡ some (record { public_id = token.token_id; secret = secret }))
    × (parse_access_token (credential_text (codes "swc_") token.token_id secret) ≡ none)
    × (parse_access_token (credential_text (codes "swa_") token.token_id secret)
        ≡ some (record { public_id = token.token_id; secret = secret }))
    × (parse_client_credential (credential_text (codes "swa_") token.token_id secret) ≡ none)
unfolding all_of is_id_char is_body_char is_digit
credential_text_lem_example = credential_text_lem token.token_id secret refl refl

route_is_allowed-Opens_example :
    (prefix : Text) × (text_in prefix (codes "/v1" ∷ []) ≡ true) × Opens prefix (codes "/v1/status")
unfolding route_is_allowed starts_with text_eq
route_is_allowed-Opens_example = route_is_allowed-Opens (codes "/v1/status") (codes "/v1" ∷ []) refl

-- a prefix does not open a path that begins like it without the slash
sibling_denied : route_is_allowed (codes "/v12") (codes "/v1" ∷ []) false ≡ false
unfolding route_is_allowed starts_with text_eq
sibling_denied = refl
