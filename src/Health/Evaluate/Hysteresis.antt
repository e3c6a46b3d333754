-- ===== src/Health/Evaluate/Hysteresis.antt =====
-- How long a mode is held.
use seasonal_weather.Prelude.{
  ap, ℕ, ◌+◌, ◌≤◌, ◌<◌, ◌≡◌, ◌≢◌, refl, sym, ◌∙◌, true, List, [], ◌∷◌, arith, Text, Dict, at_least,
  if◌then◌else◌, Option-cases, inl, inr, get,
}
use seasonal_weather.Health.{
  SourceState, HealthStateMachine, HealthStateConfig, Mode, normal, ProbeOutcome, returned, raised,
  with_source, mark_success, mark_failure, microseconds, impaired_sources,
}
use seasonal_weather.Health.Evaluate.{
  compute_mode, settle, publish, evaluate, run_probe_once, run_probes, round, Round, run_rounds,
  same_mode,
}

-- what the probes and the marks leave alone
pub record SameMode (a b : HealthStateMachine) : Type 0 where
  pub cfg : a.cfg ≡ b.cfg
  pub mode : a.mode ≡ b.mode
  pub mode_since : a.mode_since ≡ b.mode_since
  pub last_snapshot : a.last_snapshot ≡ b.last_snapshot

pub with_source-SameMode :
    (source : Text) (change : SourceState → SourceState) (h : HealthStateMachine)
    → SameMode (with_source source change h) h
unfolding with_source
with_source-SameMode source change h = elim (Option-cases (get source h.sources)) [
  | inl e ↦ ground (arith, e)
  | inr (st, e) ↦ ground (arith, e)
]

run_probe_once-SameMode :
    (source : Text) (r : ProbeOutcome × ℕ) (h : HealthStateMachine)
    → SameMode (run_probe_once source r h) h
unfolding run_probe_once mark_success mark_failure
run_probe_once-SameMode source (returned, now) h = with_source-SameMode source _ h
run_probe_once-SameMode source (raised error, now) h = with_source-SameMode source _ h

pub run_probes-SameMode :
    (env : Text → ℕ → ProbeOutcome × ℕ) (probes : Dict ℕ) (h : HealthStateMachine)
    → SameMode (run_probes env probes h) h
unfolding run_probes
run_probes-SameMode env [] h = record {
  cfg = refl;
  mode = refl;
  mode_since = refl;
  last_snapshot = refl;
}
run_probes-SameMode env ((source, probe) ∷ rest) h =
    let once = run_probe_once-SameMode source (env source probe) h in
    let more = run_probes-SameMode env rest (run_probe_once source (env source probe) h) in
    record {
      cfg = more.cfg ∙ once.cfg;
      mode = more.mode ∙ once.mode;
      mode_since = more.mode_since ∙ once.mode_since;
      last_snapshot = more.last_snapshot ∙ once.last_snapshot;
    }

cfg-evaluate : (now : ℕ) (h : HealthStateMachine) → (evaluate now h).cfg ≡ h.cfg
unfolding evaluate publish
cfg-evaluate now h = ground arith

abbrev pub hold : HealthStateMachine → ℕ
hold h = microseconds (at_least 0 h.cfg.min_hold_seconds)

-- the mode after `evaluate`, and since when
evaluate_mode :
    (now : ℕ) (h : HealthStateMachine)
    → h.cfg.enabled ≡ true
    → ((evaluate now h).mode ≡ (settle now h (compute_mode (impaired_sources now h) h)).0)
      × ((evaluate now h).mode_since ≡ (
          if same_mode h.mode (settle now h (compute_mode (impaired_sources now h) h)).0
          then h.mode_since
          else now))
unfolding evaluate publish
evaluate_mode now h on = (rw on, rw on)

settle-hold :
    (now : ℕ) (h : HealthStateMachine) (m : Mode) (reasons : List Text)
    → h.mode ≢ normal
    → now < h.mode_since + hold h
    → (settle now h (m, reasons)).0 ≢ normal
unfolding settle same_mode
settle-hold now h m reasons away early e = ground arith

same_mode_refl : (m : Mode) → same_mode m m ≡ true
unfolding same_mode
same_mode_refl m = ground arith

-- A machine in trouble since `from` or later stays in trouble while the clock is below `from` and
-- the hold, in every round.
evaluate-hold :
    (from now : ℕ) (h : HealthStateMachine)
    → h.cfg.enabled ≡ true
    → h.mode ≢ normal
    → from ≤ h.mode_since
    → from ≤ now
    → now < from + hold h
    → ((evaluate now h).mode ≢ normal) × (from ≤ (evaluate now h).mode_since)
evaluate-hold from now h on away since later early =
    let (m, reasons) = compute_mode (impaired_sources now h) h in
    (
      λ e. settle-hold now h m reasons away (omega arith) (sym (evaluate_mode now h on).0 ∙ e),
      ground (arith, (evaluate_mode now h on).1),
    )

-- every clock of the rounds lies in `[from, until)`
abbrev pub Within : ℕ → ℕ → List Round → Type 0
Within from until [] = Unit
Within from until ((env, now) ∷ rest) = (from ≤ now) × (now < until) × Within from until rest

-- An enabled machine whose mode is not normal does not return to normal in any rounds of `run_forever`
-- whose clocks all lie within the minimum hold from a time at or before the last change of mode.
pub run_rounds-hold :
    (from : ℕ) (rounds : List Round) (h : HealthStateMachine) (previous : Mode)
    → h.cfg.enabled ≡ true
    → h.mode ≢ normal
    → from ≤ h.mode_since
    → Within from (from + hold h) rounds
    → (run_rounds rounds h previous).0.mode ≢ normal
unfolding run_rounds round
run_rounds-hold from [] h previous on away since within = away
run_rounds-hold from ((env, now) ∷ rest) h previous on away since (late, early, within) =
    let probed = run_probes env h.probes h in
    let same = run_probes-SameMode env h.probes h in
    let (still, start) =
      evaluate-hold from now probed (ap (λ (c : HealthStateConfig). c.enabled) same.cfg ∙ on)
        (λ e. away (sym same.mode ∙ e)) (omega (arith, same.mode_since)) late (rw same.cfg early) in
    run_rounds-hold from rest (evaluate now probed) (evaluate now probed).last_snapshot.mode
      (ap (λ (c : HealthStateConfig). c.enabled) (cfg-evaluate now probed ∙ same.cfg) ∙ on) still
      start (rw (cfg-evaluate now probed, same.cfg) within)
