-- ===== src/Auth/Service/Revocation.antt =====
-- What a client loses: a token that is revoked, or whose client is, is never accepted again.
use seasonal_weather.Prelude.{
  ℕ, ◌-◌, ◌*◌, Bool, not, ◌||◌, Option, none, some, List, [], ◌∷◌, ℤ, Text, Bool-cases, inl, inr,
}
use seasonal_weather.Auth.{
  ClientRecord, AccessTokenRecord, AccessPrincipal, Result, ok, raised, Holds, HoldsOf, Holds-bind,
  Holds-then, ParsedCredential, parse_access_token,
}
use seasonal_weather.Auth.Repository.{AuthDatabase, get_token}
use seasonal_weather.Auth.Repository.Transactions
use seasonal_weather.Auth.Repository.Kept.{Later, Later-refl, Later-trans}
use seasonal_weather.Auth.Clients.{
  Libraries, AuthenticationService, IssuedCredential, found, create_client, rotate_client,
  set_enabled, revoke_client,
}
use seasonal_weather.Auth.Service.{
  IssuedAccessToken, is_fresh, last_persisted, issue_token, revoke_token, give_back, owned_token,
  authorize_access, record_last_used,
}
use seasonal_weather.Auth.Limits.{TokenPolicy, second}

-- every call that changes the service, with its clock readings and its random text
pub data Op : Type 0 where
  create : Text → List Text → List Text → Bool → List Text → Option ℕ → Text → ℕ → Text × Text → Op
  rotate : Text → Text → ℕ → Text × Text → Op
  enable : Text → Bool → Text → ℕ → Op
  revoke : Text → Text → ℕ → Op
  issue :
      TokenPolicy
      → Text
      → Text
      → Option (List Text)
      → Option ℤ
      → Option Text
      → ℕ
      → ℕ
      → Text × Text
      → Op
  hand_in : Text → Text → Text → Option Text → ℕ → ℕ → Op
  authorize : Bool → Text → Text → Text → ℕ → ℕ → ℕ → Op

-- the service after a call, which is the same if the call raised
abbrev pub after :
    {A : Type 0}
    → AuthenticationService
    → Result (A × AuthenticationService)
    → AuthenticationService
after s (ok (a, s')) = s'
after s (raised e) = s

abbrev pub after_alone :
    AuthenticationService → Result AuthenticationService → AuthenticationService
after_alone s (ok s') = s'
after_alone s (raised e) = s

abbrev Grown : {A : Type 0} → AuthenticationService → Result (A × AuthenticationService) → Type 0
Grown {A} s = Holds (λ (r : A × AuthenticationService). Later s.repository r.1.repository)

after-Later :
    {A : Type 0} (s : AuthenticationService) (r : Result (A × AuthenticationService))
    → Grown s r
    → Later s.repository (after s r).repository
unfolding Holds
after-Later s (ok (a, s')) h = h
after-Later s (raised e) h = Later-refl s.repository

found-Later :
    (s : AuthenticationService) (o : Option (ClientRecord × AuthDatabase))
    → HoldsOf (λ (r : ClientRecord × AuthDatabase). Later s.repository r.1) o
    → Grown s (found s o)
unfolding found Holds
found-Later s none h = tt
found-Later s (some (c, db)) h = h

module _ (lib : Libraries) where
  unfoldable pub apply : Op → AuthenticationService → AuthenticationService
  apply (create subject scopes prefixes unrestricted cidrs expires actor now random) s =
      after s
        (create_client lib subject scopes prefixes unrestricted cidrs expires actor now random s)
  apply (rotate cid actor now random) s = after s (rotate_client lib cid actor now random s)
  apply (enable cid enabled actor now) s = after s (set_enabled lib cid enabled actor now s)
  apply (revoke cid actor now) s = after s (revoke_client lib cid actor now s)
  apply (issue policy credential ip scopes ttl request checked_at now random) s =
      after s (issue_token lib policy credential ip scopes ttl request checked_at now random s)
  apply (hand_in credential target ip request checked_at now) s =
      after_alone s (revoke_token lib credential target ip request checked_at now s)
  apply (authorize writable raw ip path token_at client_at now) s =
      after s (authorize_access lib writable raw ip path token_at client_at now s)

  create_client-Later :
      (subject : Text) (scopes prefixes : List Text) (unrestricted : Bool) (cidrs : List Text)
      (expires : Option ℕ) (actor : Text) (now : ℕ) (random : Text × Text)
      (s : AuthenticationService)
      → Grown s
          (create_client lib subject scopes prefixes unrestricted cidrs expires actor now random s)
  unfolding create_client Holds
  create_client-Later subject scopes prefixes unrestricted cidrs expires actor now (id, secret) s =
      let P : IssuedCredential × AuthenticationService → Type 0 =
        λ r. Later s.repository r.1.repository in
      Holds-then P _ _ (λ clean_subject. Holds-then P _ _ (λ _. Holds-then P _ _ (λ clean_prefixes.
        Holds-then P _ _ (λ clean_scopes. Holds-then P _ _ (λ clean_cidrs.
          Holds-then P _ _ (λ clean_expires.
            Holds-bind P (λ (r : ClientRecord × AuthDatabase). Later s.repository r.1) _ _
              (Transactions.create_client-Later _ actor s.repository) (λ r grown. grown)))))))

  rotate_client-Later :
      (cid actor : Text) (now : ℕ) (random : Text × Text) (s : AuthenticationService)
      → Grown s (rotate_client lib cid actor now random s)
  unfolding rotate_client Holds
  rotate_client-Later cid actor now (id, secret) s =
      let P : IssuedCredential × AuthenticationService → Type 0 =
        λ r. Later s.repository r.1.repository in
      Holds-then P _ _ (λ _.
        Holds-bind P
          (λ (r : ClientRecord × AuthenticationService). Later s.repository r.1.repository) _ _
          (found-Later s _ (
            Transactions.rotate_client-Later cid (lib.secret_digest secret) now actor s.repository))
          (λ r grown. grown))

  issue_token-Later :
      (policy : TokenPolicy) (credential ip : Text) (scopes : Option (List Text)) (ttl : Option ℤ)
      (request : Option Text) (checked_at now : ℕ) (random : Text × Text)
      (s : AuthenticationService)
      → Grown s (issue_token lib policy credential ip scopes ttl request checked_at now random s)
  unfolding issue_token Holds
  issue_token-Later policy credential ip scopes ttl request checked_at now (id, secret) s =
      let P : IssuedAccessToken × AuthenticationService → Type 0 =
        λ r. Later s.repository r.1.repository in
      Holds-then P _ _ (λ (client, caller). Holds-then P _ _ (λ granted.
        Holds-then P _ _ (λ seconds. Holds-then P _ _ (λ (expires_in, expires_at).
          Holds-bind P (λ (r : AccessTokenRecord × AuthDatabase). Later s.repository r.1) _ _
            (Transactions.issue_token-Later client _ caller.subject ip request s.repository)
            (λ r grown. grown)))))

  record_last_used-Later :
      (writable : Bool) (cid tid : Text) (now : ℕ) (s : AuthenticationService)
      → Later s.repository (record_last_used lib writable cid tid now s).repository
  unfolding record_last_used
  record_last_used-Later writable cid tid now s =
      elim (Bool-cases
        (is_fresh now (last_persisted cid tid s.last_used_persisted) || not writable)) [
          | inl skip ↦ rw skip (Later-refl s.repository)
          | inr write ↦ rw write (
              Transactions.coalesce_last_used-Later lib.to_iso cid tid now (now - 60 * second)
                s.repository)
        ]

  authorize_access-Later :
      (writable : Bool) (raw ip path : Text) (token_at client_at now : ℕ)
      (s : AuthenticationService)
      → Grown s (authorize_access lib writable raw ip path token_at client_at now s)
  unfolding authorize_access Holds
  authorize_access-Later writable raw ip path token_at client_at now s =
      let P : AccessPrincipal × AuthenticationService → Type 0 =
        λ r. Later s.repository r.1.repository in
      Holds-then P _ _ (λ token. Holds-then P _ _ (λ client.
        Holds-then P _ _
          (λ _. record_last_used-Later writable client.client_id token.token_id now s)))

  revoke_token-Later :
      (credential target ip : Text) (request : Option Text) (checked_at now : ℕ)
      (s : AuthenticationService)
      → Holds
          (λ (s' : AuthenticationService). Later s.repository s'.repository)
          (revoke_token lib credential target ip request checked_at now s)
  unfolding revoke_token
  revoke_token-Later credential target ip request checked_at now s =
      Holds-then P _ _
        (λ (client, caller). parsed client caller.subject (parse_access_token target))
    where
      P : AuthenticationService → Type 0
      P s' = Later s.repository s'.repository

      parsed :
          (client : ClientRecord) (subject : Text) (target : Option ParsedCredential)
          → Holds P (give_back lib client subject ip request now target s)
      parsed client subject none = unfold give_back Holds in tt
      parsed client subject (some p) =
          unfold give_back Holds in
          elim (Bool-cases (owned_token lib client p (get_token p.public_id s.repository))) [
            | inl own ↦ rw own (
                Transactions.revoke_owned_token-Later p.public_id client.client_id now subject ip
                  request s.repository)
            | inr other ↦ rw other (Later-refl s.repository)
          ]

  pub apply-Later :
      (op : Op) (s : AuthenticationService) → Later s.repository (apply op s).repository
  unfolding apply set_enabled revoke_client
  apply-Later (create subject scopes prefixes unrestricted cidrs expires actor now random) s =
      after-Later s _
        (create_client-Later subject scopes prefixes unrestricted cidrs expires actor now random s)
  apply-Later (rotate cid actor now random) s =
      after-Later s _ (rotate_client-Later cid actor now random s)
  apply-Later (enable cid enabled actor now) s =
      after-Later s _
        (found-Later s _ (Transactions.set_client_enabled-Later cid enabled now actor s.repository))
  apply-Later (revoke cid actor now) s =
      after-Later s _
        (found-Later s _ (Transactions.revoke_client-Later cid now actor s.repository))
  apply-Later (issue policy credential ip scopes ttl request checked_at now random) s =
      after-Later s _
        (issue_token-Later policy credential ip scopes ttl request checked_at now random s)
  apply-Later (hand_in credential target ip request checked_at now) s =
      same _ (revoke_token-Later credential target ip request checked_at now s)
    where
      same :
          (r : Result AuthenticationService)
          → Holds (λ (s' : AuthenticationService). Later s.repository s'.repository) r
          → Later s.repository (after_alone s r).repository
      same (ok s') h = unfold Holds in h
      same (raised e) h = Later-refl s.repository
  apply-Later (authorize writable raw ip path token_at client_at now) s =
      after-Later s _ (authorize_access-Later writable raw ip path token_at client_at now s)

  unfoldable pub apply_all : List Op → AuthenticationService → AuthenticationService
  apply_all [] s = s
  apply_all (op ∷ ops) s = apply_all ops (apply op s)

  -- After any calls, each client and each token is still stored, with the same scopes and the same
  -- expiry, no generation is lower, and what was revoked is revoked.
  pub apply_all-Later :
      (ops : List Op) (s : AuthenticationService) → Later s.repository (apply_all ops s).repository
  unfolding apply_all
  apply_all-Later [] s = Later-refl s.repository
  apply_all-Later (op ∷ ops) s =
      Later-trans _ _ _ (apply-Later op s) (apply_all-Later ops (apply op s))
