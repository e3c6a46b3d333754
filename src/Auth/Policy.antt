-- ===== src/Auth/Policy.antt =====
-- seasonalweather/auth/policy.py and the checks of auth/service.py on scopes, routes and addresses.
use seasonal_weather.Prelude.{
  ℕ, Bool, true, false, not, ◌&&◌, ◌||◌, Option, none, some, List, [], ◌∷◌, ◌++◌, any, nonempty,
  if◌then◌else◌, ◌==◌, Text, codes, text_eq, text_in, text_le, strip, starts_with, has_sub,
  is_digit, sort_by,
}
use seasonal_weather.Auth.{
  AuthError, authentication_error, Result, ok, raised, require, ◌>>=◌, is_lower,
}

pub record RouteAuthPolicy : Type 0 where
  pub scopes : List Text
  pub client_credential : Bool

pub is_public : RouteAuthPolicy → Bool
is_public policy = not (nonempty policy.scopes) && not policy.client_credential

pub protected : Text → RouteAuthPolicy
protected scope = record { scopes = scope ∷ []; client_credential = false }

pub public_route : RouteAuthPolicy
public_route = record { scopes = []; client_credential = false }

pub client_credential_route : RouteAuthPolicy
client_credential_route = record { scopes = []; client_credential = true }

pub known_api_scopes : List Text
known_api_scopes =
    codes "read:health"
    ∷ codes "read:status"
    ∷ codes "read:alerts"
    ∷ codes "read:config"
    ∷ codes "control:cycle"
    ∷ codes "control:mode"
    ∷ codes "control:tests"
    ∷ codes "control:originate"
    ∷ codes "control:audio"
    ∷ codes "control:inserts"
    ∷ codes "control:config"
    ∷ codes "*"
    ∷ []

-- a route's method, its path and its policy
pub route_auth_policies : List (Text × Text × RouteAuthPolicy)
route_auth_policies =
    (codes "GET", codes "/openapi.json", public_route)
    ∷ (codes "HEAD", codes "/openapi.json", public_route)
    ∷ (codes "GET", codes "/docs", public_route)
    ∷ (codes "HEAD", codes "/docs", public_route)
    ∷ (codes "GET", codes "/docs/oauth2-redirect", public_route)
    ∷ (codes "HEAD", codes "/docs/oauth2-redirect", public_route)
    ∷ (codes "GET", codes "/redoc", public_route)
    ∷ (codes "HEAD", codes "/redoc", public_route)
    ∷ (codes "GET", codes "/healthz", protected (codes "read:health"))
    ∷ (codes "GET", codes "/v1/health", protected (codes "read:health"))
    ∷ (codes "GET", codes "/v1/status", protected (codes "read:status"))
    ∷ (codes "GET", codes "/v1/handled-alerts", public_route)
    ∷ (codes "GET", codes "/v1/station-feed", protected (codes "read:alerts"))
    ∷ (codes "GET", codes "/v1/config/summary", protected (codes "read:config"))
    ∷ (codes "GET", codes "/v1/commands/{command_id}", protected (codes "read:status"))
    ∷ (codes "POST", codes "/v1/auth/token", client_credential_route)
    ∷ (codes "POST", codes "/v1/auth/revoke", client_credential_route)
    ∷ (codes "POST", codes "/v1/cycle/rebuild", protected (codes "control:cycle"))
    ∷ (codes "POST", codes "/v1/mode/heightened", protected (codes "control:mode"))
    ∷ (codes "DELETE", codes "/v1/mode/heightened", protected (codes "control:mode"))
    ∷ (codes "POST", codes "/v1/tests/originate", protected (codes "control:tests"))
    ∷ (codes "POST", codes "/v1/uploads/audio", protected (codes "control:audio"))
    ∷ (codes "POST", codes "/v1/inserts/text", protected (codes "control:inserts"))
    ∷ (codes "POST", codes "/v1/inserts/audio", protected (codes "control:inserts"))
    ∷ (codes "GET", codes "/v1/inserts", protected (codes "control:inserts"))
    ∷ (codes "GET", codes "/v1/inserts/{insert_id}", protected (codes "control:inserts"))
    ∷ (codes "DELETE", codes "/v1/inserts/{insert_id}", protected (codes "control:inserts"))
    ∷ (codes "POST", codes "/v1/originate/text", protected (codes "control:originate"))
    ∷ (codes "POST", codes "/v1/originate/audio", protected (codes "control:originate"))
    ∷ (codes "POST", codes "/v1/config/reload", protected (codes "control:config"))
    ∷ (codes "GET", codes "/v1/events", protected (codes "read:status"))
    ∷ []

-- the scopes of the routes that change something
pub write_scopes : List (Text × Text × RouteAuthPolicy) → List Text
write_scopes [] = []
write_scopes ((method, path, policy) ∷ routes) =
    (if text_in method (codes "GET" ∷ codes "HEAD" ∷ []) then [] else policy.scopes)
    ++ write_scopes routes

pub scopes_are_write_capable : List Text → Bool
scopes_are_write_capable scopes =
    text_in (codes "*") scopes
    || any (λ scope. text_in scope (write_scopes route_auth_policies)) scopes

-- `SCOPE_RE`: an asterisk, or two words with a colon between them
pub is_scope_char : ℕ → Bool
is_scope_char c = is_lower c || is_digit c || c == b'_' || c == b'-'

pub scope_word : Text → Bool
scope_word [] = false
scope_word (c ∷ s) = is_lower c && not (any (λ d. not (is_scope_char d)) s)

pub scope_words : Text → Text → Bool
scope_words word [] = false
scope_words word (c ∷ s) =
    let later = scope_words (word ++ c ∷ []) s in
    if c == b':' then scope_word word && scope_word s else later

pub is_scope : Text → Bool
is_scope value = text_eq value (codes "*") || scope_words [] value

pub has_duplicates : List Text → Bool
has_duplicates [] = false
has_duplicates (t ∷ ts) = text_in t ts || has_duplicates ts

pub invalid_scope : AuthError
invalid_scope = authentication_error (codes "invalid_scope") 400

pub bad_scope : Text → Bool
bad_scope value =
    not (text_eq value (strip value))
    || not (is_scope value)
    || not (text_in value known_api_scopes)

pub normalize_scopes : List Text → Result (List Text)
normalize_scopes raw = require (nonempty raw) invalid_scope >>= λ _.
    require (not (has_duplicates raw)) invalid_scope >>= λ _.
    require (not (any bad_scope raw)) invalid_scope >>= λ _. ok raw

pub basic_route_prefix_valid : Text → Bool
basic_route_prefix_valid value =
    starts_with value (codes "/")
    && text_eq value (strip value)
    && not (
        any (λ marker. has_sub marker value)
          (codes "?" ∷ codes "#" ∷ codes "\\" ∷ codes "//" ∷ codes "*" ∷ []))

-- `value.split("/")`
pub split_slash : Text → Text → List Text
split_slash [] cur = cur ∷ []
split_slash (c ∷ s) cur = elim (c == b'/') [
  | true ↦ cur ∷ split_slash s []
  | false ↦ split_slash s (cur ++ c ∷ [])
]

-- `value.rstrip("/")`
pub rstrip_slash : Text → Text
rstrip_slash [] = []
rstrip_slash (c ∷ s) =
    let rest = rstrip_slash s in if c == b'/' && not (nonempty rest) then [] else c ∷ rest

pub invalid_route_prefix : AuthError
invalid_route_prefix = authentication_error (codes "invalid_route_prefix") 400

-- `posixpath.normpath` is a parameter
pub normalize_route_prefix : (Text → Text) → Text → Result Text
normalize_route_prefix normpath value =
    require (basic_route_prefix_valid value) invalid_route_prefix >>= λ _.
    require
      (not (
        any (λ part. text_eq part (codes ".") || text_eq part (codes "..")) (split_slash value [])))
      invalid_route_prefix
    >>= λ _.
        require (text_eq (normpath value) (rstrip_slash value) || text_eq value (codes "/"))
          invalid_route_prefix
        >>= λ _. ok (normpath value)

unfoldable pub route_is_allowed : Text → List Text → Bool → Bool
route_is_allowed path prefixes unrestricted =
    unrestricted
    || any
        (λ prefix.
          text_eq prefix (codes "/")
          || text_eq path prefix
          || starts_with path (prefix ++ codes "/"))
        prefixes

pub invalid_cidr : AuthError
invalid_cidr = authentication_error (codes "invalid_cidr") 400

-- the networks' own texts, if all can be read
pub read_networks : (Text → Option Text) → List Text → Option (List Text)
read_networks ip_network [] = some []
read_networks ip_network (v ∷ vs) = elim (ip_network v) [
  | none ↦ none
  | some n ↦ elim (read_networks ip_network vs) [ none ↦ none | some ns ↦ some (n ∷ ns) ]
]

-- `ipaddress.ip_network` is a parameter: the network's text, or none where it raises
pub normalize_cidrs : (Text → Option Text) → List Text → Result (List Text)
normalize_cidrs ip_network raw = require (nonempty raw) invalid_cidr >>= λ _.
    elim (read_networks ip_network raw) [
      | none ↦ raised invalid_cidr
      | some canonical ↦ require (not (has_duplicates canonical)) invalid_cidr >>= λ _.
          ok (sort_by text_le canonical)
    ]

-- `ipaddress` is a parameter: an address, or none where it raises, and the test of a network
pub source_allowed {ℓ} :
    {Address : Type ℓ} → (Text → Option Address) → (Address → Text → Bool) → Text → List Text → Bool
source_allowed ip_address in_network source_ip cidrs = elim (ip_address source_ip) [
  | none ↦ false
  | some address ↦ any (λ cidr. in_network address cidr) cidrs
]
