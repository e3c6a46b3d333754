-- ===== src/Health/Evaluate/Modes.antt =====
-- Which mode the impaired sources call for.
use seasonal_weather.Prelude.{
  Bool, not, refl, ℕ, ◌≤◌, ◌≡◌, ◌↔◌, sym, ◌∙◌, if◌then◌else◌, nonempty-keep-keep, nonempty-of-keep,
  ◌⊎◌, true, false, ◌&&◌, List, [], ◌∷◌, arith, length, keep, nonempty, any, All,
  All-of-length-keep, length-keep-of-All, nonempty-keep, values,
}
use seasonal_weather.Health.{
  SourceState, HealthStateMachine, Mode, normal, critical_degraded, detached, is_impaired,
  impaired_sources,
}
use seasonal_weather.Health.Evaluate.{
  has_alert_role, is_enabled_alert, is_primary_alert, severity, compute_mode,
}

-- the mode that the sources call for at a clock, before the hysteresis
abbrev pub mode_at : ℕ → HealthStateMachine → Mode
mode_at now h = (compute_mode (impaired_sources now h) h).0

module _ (now : ℕ) where
  impaired_alert :
      (st : SourceState)
      → is_impaired now st && has_alert_role st ≡ true
      → is_enabled_alert st ≡ true
  unfolding is_impaired is_enabled_alert
  impaired_alert st h = ground arith

  alert_role : (st : SourceState) → is_enabled_alert st ≡ true → has_alert_role st ≡ true
  unfolding is_enabled_alert
  alert_role st h = ground arith

  choose : List SourceState → List SourceState → Mode
  choose ea im = if nonempty im then severity ea im else normal

  choose-detached :
      (ea im : List SourceState)
      → (choose ea im ≡ detached)
        ↔ ((nonempty ea ≡ true) × (length ea ≤ length (keep has_alert_role im)))
  unfolding choose severity
  choose-detached [] im = (λ e. ground arith, λ h. ground arith)
  choose-detached (x ∷ ea) [] = (λ e. ground arith, λ h. ground arith)
  choose-detached (x ∷ ea) (y ∷ im) = (λ e. ground arith, λ h. ground arith)

  mode_at-choose :
      (h : HealthStateMachine)
      → mode_at now h ≡ choose (keep is_enabled_alert (values h.sources)) (impaired_sources now h)
  unfolding compute_mode choose
  mode_at-choose h = ground arith

  mode_at-detached-All :
      (h : HealthStateMachine)
      → (mode_at now h ≡ detached) ↔ (
          (any is_enabled_alert (values h.sources) ≡ true)
          × All (λ st. is_enabled_alert st ≡ true → is_impaired now st ≡ true) (values h.sources))
  unfolding impaired_sources
  mode_at-detached-All h =
      let xs = values h.sources in
      let ea = keep is_enabled_alert xs in
      let im = keep (is_impaired now) xs in
      let found = nonempty-keep is_enabled_alert xs in
      (
        λ e.
            let (some_alert, enough) = (choose-detached ea im).0 (sym (mode_at-choose h) ∙ e) in
            (
              sym found ∙ some_alert,
              All-of-length-keep (is_impaired now) has_alert_role is_enabled_alert impaired_alert
                  alert_role xs enough,
            ),
        λ (some_alert, all).
            mode_at-choose h
            ∙ (choose-detached ea im).1 (
              found ∙ some_alert,
              length-keep-of-All (is_impaired now) has_alert_role is_enabled_alert impaired_alert
                  alert_role xs all,
            ),
      )

  exceptions_of :
      (p q : SourceState → Bool) (xs : List SourceState)
      → All (λ st. p st ≡ true → q st ≡ true) xs ↔ (any (λ st. p st && not (q st)) xs ≡ false)
  exceptions_of p q [] = (λ all. refl, λ e. tt)
  exceptions_of p q (x ∷ xs) =
      let (to, from) = exceptions_of p q xs in
      (λ (hx, all). ground (arith, to all), λ e. (λ px. ground arith, from (ground arith)))

  -- The computed mode is detached just when there is an enabled alert source and none of the enabled
  -- alert sources is unimpaired.
  pub mode_at-detached :
      (h : HealthStateMachine)
      → (mode_at now h ≡ detached) ↔ (
          (any is_enabled_alert (values h.sources) ≡ true)
          × (any (λ st. is_enabled_alert st && not (is_impaired now st)) (values h.sources)
              ≡ false))
  mode_at-detached h =
      let (to, from) = mode_at-detached-All h in
      let (forth, back) = exceptions_of is_enabled_alert (is_impaired now) (values h.sources) in
      (
        λ e. ((to e).0, forth (to e).1),
        λ (some_alert, none_left). from (some_alert, back none_left),
      )

  -- The computed mode is normal just when no source is impaired.
  pub mode_at-normal :
      (h : HealthStateMachine)
      → (mode_at now h ≡ normal) ↔ (any (is_impaired now) (values h.sources) ≡ false)
  unfolding compute_mode impaired_sources severity
  mode_at-normal h = (
    λ e. ground (arith, nonempty-keep (is_impaired now) (values h.sources)),
    λ e. ground (arith, nonempty-keep (is_impaired now) (values h.sources)),
  )

  -- With a primary alert source impaired, the computed mode is critical-degraded or detached.
  pub mode_at_primary :
      (h : HealthStateMachine)
      → any (λ st. is_impaired now st && is_primary_alert st) (values h.sources) ≡ true
      → (mode_at now h ≡ critical_degraded) ⊎ (mode_at now h ≡ detached)
  unfolding compute_mode impaired_sources severity
  mode_at_primary h e = ground (
    arith,
    nonempty-keep-keep (is_impaired now) is_primary_alert (values h.sources),
    nonempty-of-keep is_primary_alert (keep (is_impaired now) (values h.sources)),
  )
