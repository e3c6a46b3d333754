-- ===== src/Auth/Credentials.antt =====
-- The text of a credential and what is read from it.
use seasonal_weather.Prelude.{
  ℕ, zero, suc, Bool, true, ◌&&◌, Option, none, some, [], ◌∷◌, ◌++◌, ◌≡◌, refl, ap, ◌∙◌, arith,
  take, drop, if◌then◌else◌, Text, codes, text_eq,
}
use seasonal_weather.Auth.{
  ParsedCredential, is_id_char, is_body_char, all_of, parse_credential, parse_client_credential,
  parse_access_token, credential_text,
}

take-all_of : (p : ℕ → Bool) (n : ℕ) (s t : Text) → all_of p n s ≡ true → take n (s ++ t) ≡ s
unfolding all_of
take-all_of p zero [] t h = refl
take-all_of p zero (c ∷ s) t h = cc
take-all_of p (suc n) [] t h = cc
take-all_of p (suc n) (c ∷ s) t h = ground (arith, take-all_of p n s t)

drop-all_of : (p : ℕ → Bool) (n : ℕ) (s t : Text) → all_of p n s ≡ true → drop n (s ++ t) ≡ t
unfolding all_of
drop-all_of p zero [] t h = refl
drop-all_of p zero (c ∷ s) t h = cc
drop-all_of p (suc n) [] t h = cc
drop-all_of p (suc n) (c ∷ s) t h = ground (arith, drop-all_of p n s t)

drop-suc-all_of :
    (p : ℕ → Bool) (n d : ℕ) (s t : Text) → all_of p n s ≡ true → drop (suc n) (s ++ d ∷ t) ≡ t
unfolding all_of
drop-suc-all_of p zero d [] t h = refl
drop-suc-all_of p zero d (c ∷ s) t h = cc
drop-suc-all_of p (suc n) d [] t h = cc
drop-suc-all_of p (suc n) d (c ∷ s) t h = ground (arith, drop-suc-all_of p n d s t)

-- a credential's parts, once the prefix fits
parts : Text → Text → Text → Option ParsedCredential
parts id dot secret =
    if all_of is_id_char 24 id && text_eq dot (codes ".") && all_of is_body_char 43 secret
    then some (record { public_id = id; secret = secret })
    else none

parts-whole :
    (id secret : Text)
    → all_of is_id_char 24 id ≡ true
    → all_of is_body_char 43 secret ≡ true
    → parts
        (take 24 (id ++ b'.' ∷ secret))
        (take 1 (drop 24 (id ++ b'.' ∷ secret)))
        (drop 25 (id ++ b'.' ∷ secret))
      ≡ some (record { public_id = id; secret = secret })
parts-whole id secret hex body =
    let text = id ++ b'.' ∷ secret in
    ap (λ a. parts a (take 1 (drop 24 text)) (drop 25 text))
      (take-all_of is_id_char 24 id (b'.' ∷ secret) hex)
    ∙ (ap (λ d. parts id (take 1 d) (drop 25 text))
          (drop-all_of is_id_char 24 id (b'.' ∷ secret) hex)
        ∙ (ap (parts id (codes ".")) (drop-suc-all_of is_id_char 24 b'.' id secret hex) ∙ whole))
  where
    whole : parts id (codes ".") secret ≡ some (record { public_id = id; secret = secret })
    whole = unfold parts text_eq in ground (arith, hex, body)

-- For an id of 24 hexadecimal digits and a secret of 43 characters of the secret's alphabet, a client
-- credential is read back as they are and is no access token, and an access token is read back as they
-- are and is no client credential.
pub credential_text_lem :
    (id secret : Text)
    → all_of is_id_char 24 id ≡ true
    → all_of is_body_char 43 secret ≡ true
    → (parse_client_credential (credential_text (codes "swc_") id secret)
        ≡ some (record { public_id = id; secret = secret }))
      × (parse_access_token (credential_text (codes "swc_") id secret) ≡ none)
      × (parse_access_token (credential_text (codes "swa_") id secret)
          ≡ some (record { public_id = id; secret = secret }))
      × (parse_client_credential (credential_text (codes "swa_") id secret) ≡ none)
unfolding parse_client_credential parse_access_token parse_credential credential_text text_eq parts
credential_text_lem id secret hex body =
    (parts-whole id secret hex body, refl, parts-whole id secret hex body, refl)
