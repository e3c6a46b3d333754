-- ===== src/Auth/Limits.antt =====
-- seasonalweather/auth/service.py: what a client and a token may be: the checks on what a request asks.
pub mod Lifetime
use seasonal_weather.Prelude.{
  ℕ, zero, suc, ◌+◌, ◌-◌, ◌*◌, ◌/◌, Bool, true, false, not, ◌&&◌, ◌||◌, Option, none, some, List,
  [], ◌∷◌, ◌++◌, any, map, if◌then◌else◌, leb, ltb, ◌==◌, nonempty, length, is_some, ℤ, pos, negsuc,
  Text, codes, text_eq, text_in, text_le, strip, sort_by,
}
use seasonal_weather.Auth.{
  ClientRecord, AccessTokenRecord, AuthenticatedClient, AccessPrincipal, AuthError,
  authentication_error, runtime_error, Result, ok, raised, require, ◌>>=◌, invalid_client,
  invalid_token, policy_denied, client_not_found, ParsedCredential, parse_client_credential,
  parse_access_token, credential_text, verify_secret,
}
use seasonal_weather.Auth.Policy.{
  normalize_scopes, normalize_route_prefix, normalize_cidrs, route_is_allowed, source_allowed,
  scopes_are_write_capable, has_duplicates,
}

-- the limits of a token's life, in seconds
pub record TokenPolicy : Type 0 where
  pub minimum_ttl_seconds : ℕ
  pub default_ttl_seconds : ℕ
  pub maximum_read_ttl_seconds : ℕ
  pub maximum_write_ttl_seconds : ℕ

-- a second in microseconds
abbrev pub second : ℕ
second = 1000000

pub invalid : Text → AuthError
invalid code = authentication_error code 400

pub normalize_subject : Text → Result Text
normalize_subject subject =
    let value = strip subject in
    require (nonempty value && leb (length value) 128) (invalid (codes "invalid_subject")) >>= λ _.
    ok value

-- `{normalize_route_prefix(value) for value in raw_prefixes}`
pub normalize_prefixes : (Text → Text) → List Text → Result (List Text)
normalize_prefixes normpath [] = ok []
normalize_prefixes normpath (v ∷ vs) = normalize_route_prefix normpath v >>= λ p.
    normalize_prefixes normpath vs >>= λ ps. ok (if text_in p ps then ps else p ∷ ps)

-- an expiry that is given lies in the future
pub normalize_expiration : Option ℕ → ℕ → Result (Option ℕ)
normalize_expiration none now = ok none
normalize_expiration (some value) now =
    if leb value now then raised (invalid (codes "invalid_expiration")) else ok (some value)

pub has_expired : ℕ → Option ℕ → Bool
has_expired now none = false
has_expired now (some at) = leb at now

pub requested_scopes : ClientRecord → Option (List Text) → Result (List Text)
requested_scopes client requested =
    elim requested [ none ↦ ok client.scopes | some raw ↦ normalize_scopes raw ] >>= λ scopes.
    require
      (not (any (λ scope. not (text_in scope client.scopes)) scopes)
        || text_in (codes "*") client.scopes)
      (authentication_error (codes "scope_not_allowed") 403)
    >>= λ _. ok scopes

pub in_range : ℕ → ℕ → ℤ → Result ℕ
in_range minimum maximum (pos ttl) =
    if leb minimum ttl && leb ttl maximum
    then ok ttl
    else raised (invalid (codes "invalid_token_ttl"))
in_range minimum maximum (negsuc n) = raised (invalid (codes "invalid_token_ttl"))

pub requested_ttl : TokenPolicy → Option ℤ → Bool → Result ℕ
requested_ttl policy requested write_capable =
    in_range policy.minimum_ttl_seconds
      (if write_capable then policy.maximum_write_ttl_seconds else policy.maximum_read_ttl_seconds)
      (elim requested [ none ↦ pos policy.default_ttl_seconds | some ttl ↦ ttl ])

-- `int((expires_at - now).total_seconds()) < minimum`, where the difference may be negative
unfoldable pub too_soon : ℕ → ℕ → ℕ → Bool
too_soon minimum expires now =
    if ltb expires now
    then ltb 0 ((now - expires) / second + minimum)
    else ltb ((expires - now) / second) minimum

unfoldable pub token_expiration : TokenPolicy → ClientRecord → ℕ → ℕ → Result (ℕ × ℕ)
token_expiration policy client now ttl =
    let expires_at = now + ttl * second in
    elim client.expires_at [
      | none ↦ ok (ttl, expires_at)
      | some e ↦
          if leb expires_at e
          then ok (ttl, expires_at)
          else if too_soon policy.minimum_ttl_seconds e now
          then raised (authentication_error (codes "client_expiring") 403)
          else ok ((e - now) / second, e)
    ]
