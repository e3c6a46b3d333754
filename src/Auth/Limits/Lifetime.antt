-- ===== src/Auth/Limits/Lifetime.antt =====
-- How long a token lives.
use seasonal_weather.Prelude.{
  ℕ, ◌+◌, ◌-◌, ◌*◌, ◌/◌, ◌≤◌, ◌≡◌, refl, arith, false, Option, none, some, leb, leb→le, Bool-cases,
  inl, inr,
}
use mathlib.Core.Path.{subst}
use seasonal_weather.Auth.{ClientRecord, ok, Holds}
use seasonal_weather.Auth.Limits.{TokenPolicy, second, too_soon, token_expiration}

-- no later than an expiry, if there is one
abbrev pub By : ℕ → Option ℕ → Type 0
By at none = Unit
By at (some expires) = at ≤ expires

-- a lifetime in seconds and an expiry that serve a request of `ttl` seconds at `now`
abbrev pub Serves : TokenPolicy → ClientRecord → ℕ → ℕ → ℕ × ℕ → Type 0
Serves policy client now ttl (expires_in, expires_at) =
    (policy.minimum_ttl_seconds ≤ expires_in)
    × (expires_in ≤ ttl)
    × (now + expires_in * second ≤ expires_at)
    × (expires_at ≤ now + ttl * second)
    × By expires_at client.expires_at

-- A client that has expired by the time of issue has too little time left, if any life is asked for.
too_soon-false :
    (minimum expires now : ℕ)
    → 1 ≤ minimum
    → too_soon minimum expires now ≡ false
    → (now ≤ expires) × (minimum ≤ (expires - now) / second)
unfolding too_soon
too_soon-false minimum expires now some_life h = ground arith

-- With a minimum life of a second or more, an accepted request gets a lifetime between the minimum and
-- what was asked for; the token lasts at least that long, no longer than was asked for, and no longer
-- than the client.
pub token_expiration_lem :
    (policy : TokenPolicy) (client : ClientRecord) (now ttl : ℕ) (granted : ℕ × ℕ)
    → 1 ≤ policy.minimum_ttl_seconds
    → policy.minimum_ttl_seconds ≤ ttl
    → token_expiration policy client now ttl ≡ ok granted
    → Serves policy client now ttl granted
unfolding token_expiration
token_expiration_lem policy client now ttl granted some_life low done =
    unfold Holds in subst (Holds (Serves policy client now ttl)) done (go client.expires_at refl)
  where
    P : ℕ × ℕ → Type 0
    P = Serves policy client now ttl

    go : (o : Option ℕ) → client.expires_at ≡ o → Holds P (token_expiration policy client now ttl)
    go none e =
        simp (e, token_expiration)
          (unfold Holds in (low, omega arith, omega arith, omega arith, simp e tt))
    go (some x) e = elim (Bool-cases (leb (now + ttl * second) x)) [
      | inl lasts ↦
          simp (e, token_expiration, lasts)
            (unfold Holds in
              (low, omega arith, omega arith, omega arith, simp e (leb→le _ _ lasts)))
      | inr ends ↦ elim (Bool-cases (too_soon policy.minimum_ttl_seconds x now)) [
        | inl soon ↦ simp (e, token_expiration, ends, soon) (unfold Holds in tt)
        | inr left ↦
            let (present, enough) =
              too_soon-false policy.minimum_ttl_seconds x now some_life left in
            simp (e, token_expiration, ends, left)
              (unfold Holds in
                (enough, ground arith, omega (arith, present), ground arith, simp e (omega arith)))
      ]
    ]
