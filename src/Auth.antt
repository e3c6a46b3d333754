-- ===== src/Auth.antt =====
-- seasonalweather/auth/models.py, credentials.py: the records of clients and access tokens, the
-- credentials that name them, and the errors of the service. An instant is a number of microseconds.
pub mod Routes
pub mod Credentials
pub mod Policy
pub mod Repository
pub mod Limits
pub mod Clients
pub mod Service
use seasonal_weather.Prelude.{
  ℕ, zero, suc, Bool, true, false, ◌&&◌, ◌||◌, Option, none, some, List, [], ◌∷◌, ◌++◌, length,
  take, drop, any, if◌then◌else◌, leb, ◌==◌, Text, codes, text_eq, is_digit, is_upper, starts_with,
}

pub record ClientRecord : Type 0 where
  pub client_id : Text
  pub subject : Text
  pub scopes : List Text
  pub route_prefixes : List Text
  pub unrestricted_routes : Bool
  pub cidrs : List Text
  pub enabled : Bool
  pub created_at : ℕ
  pub updated_at : ℕ
  pub expires_at : Option ℕ
  pub revoked_at : Option ℕ
  pub last_used_at : Option ℕ
  pub generation : ℕ
  pub verifier_algorithm : Text
  pub verifier_digest : Text

pub record AccessTokenRecord : Type 0 where
  pub token_id : Text
  pub client_id : Text
  pub scopes : List Text
  pub issued_at : ℕ
  pub expires_at : ℕ
  pub revoked_at : Option ℕ
  pub last_used_at : Option ℕ
  pub write_capable : Bool
  pub client_generation : ℕ
  pub verifier_algorithm : Text
  pub verifier_digest : Text

pub record AuthenticatedClient : Type 0 where
  pub client_id : Text
  pub subject : Text
  pub source_ip : Text

pub record AccessPrincipal : Type 0 where
  pub client_id : Text
  pub token_id : Text
  pub subject : Text
  pub scopes : List Text
  pub source_ip : Text

-- `AuthenticationError` with its code and HTTP status, `RuntimeError`, and SQLite's refusal of a key
-- that is already there
pub data AuthError : Type 0 where
  authentication_error : Text → ℕ → AuthError
  runtime_error : AuthError
  integrity_error : AuthError

pub data Result {ℓ} (A : Type ℓ) : Type ℓ where
  ok : A → Result A
  raised : AuthError → Result A

infixl 10 ◌>>=◌
unfoldable pub ◌>>=◌ {ℓ κ} : {A : Type ℓ} {B : Type κ} → Result A → (A → Result B) → Result B
ok a >>= f = f a
raised e >>= f = raised e

-- go on where a test holds
abbrev pub require : Bool → AuthError → Result {0} Unit
require true e = ok tt
require false e = raised e

pub invalid_client : AuthError
invalid_client = authentication_error (codes "invalid_client") 401

pub invalid_token : AuthError
invalid_token = authentication_error (codes "invalid_token") 401

pub policy_denied : AuthError
policy_denied = authentication_error (codes "client_policy_denied") 403

pub client_not_found : AuthError
client_not_found = authentication_error (codes "client_not_found") 404

pub record ParsedCredential : Type 0 where
  pub public_id : Text
  pub secret : Text

-- `[a-z]`
unfoldable pub is_lower : ℕ → Bool
is_lower c = leb b'a' c && leb c b'z'

-- `[a-f0-9]`
unfoldable pub is_id_char : ℕ → Bool
is_id_char c = is_digit c || (leb b'a' c && leb c b'f')

-- `[A-Za-z0-9_-]`
unfoldable pub is_body_char : ℕ → Bool
is_body_char c = is_digit c || is_upper c || is_lower c || c == b'_' || c == b'-'

-- as many characters as asked for, all of a class, and nothing else
unfoldable pub all_of : (ℕ → Bool) → ℕ → Text → Bool
all_of p zero [] = true
all_of p zero (c ∷ s) = false
all_of p (suc n) [] = false
all_of p (suc n) (c ∷ s) = p c && all_of p n s

-- `_CLIENT_RE` and `_ACCESS_RE`: the prefix, 24 characters of an id, a dot, 43 of a secret
unfoldable pub parse_credential : Text → Text → Option ParsedCredential
parse_credential prefix value =
    let id = take 24 (drop 4 value) in
    let secret = drop 29 value in
    if text_eq (take 4 value) prefix
      && all_of is_id_char 24 id
      && text_eq (take 1 (drop 28 value)) (codes ".")
      && all_of is_body_char 43 secret
    then some (record { public_id = id; secret = secret })
    else none

pub parse_client_credential : Text → Option ParsedCredential
parse_client_credential value = parse_credential (codes "swc_") value

unfoldable pub parse_access_token : Text → Option ParsedCredential
parse_access_token value = parse_credential (codes "swa_") value

-- `_generate` puts the random id and the random secret together
pub credential_text : Text → Text → Text → Text
credential_text prefix public_id secret = prefix ++ (public_id ++ (codes "." ++ secret))

-- `hmac.compare_digest(secret_digest(secret), expected_digest)`, where SHA-256 is a parameter
pub verify_secret : (Text → Text) → Text → Text → Bool
verify_secret secret_digest secret expected = text_eq (secret_digest secret) expected

-- what holds of a result where there is one
unfoldable pub Holds : {A : Type 0} → (A → Type 0) → Result A → Type 0
Holds P (ok a) = P a
Holds P (raised e) = Unit

abbrev pub HoldsOf : {A : Type 0} → (A → Type 0) → Option A → Type 0
HoldsOf P none = Unit
HoldsOf P (some a) = P a

pub Holds-bind :
    {A : Type 0} {B : Type 0} (P : B → Type 0) (Q : A → Type 0) (r : Result A) (f : A → Result B)
    → Holds Q r
    → ((a : A) → Q a → Holds P (f a))
    → Holds P (r >>= f)
unfolding ◌>>=◌ Holds
Holds-bind P Q (ok a) f q step = step a q
Holds-bind P Q (raised e) f q step = tt

pub Holds-then :
    {A : Type 0} {B : Type 0} (P : B → Type 0) (r : Result A) (f : A → Result B)
    → ((a : A) → Holds P (f a))
    → Holds P (r >>= f)
unfolding ◌>>=◌ Holds
Holds-then P (ok a) f step = step a
Holds-then P (raised e) f step = tt
