-- ===== src/Health/Evaluate.antt =====
-- seasonalweather/health_state.py: the choice of the mode, its hysteresis, the published context and
-- a round of the loop.
pub mod Modes
pub mod Hysteresis
pub mod Snapshot
mod Examples
use seasonal_weather.Prelude.{
  some, ℕ, ◌+◌, ◌*◌, Bool, true, false, not, ◌&&◌, ◌||◌, List, [], ◌∷◌, ◌++◌, map, leb, ltb,
  if◌then◌else◌, length, keep, nonempty, at_least, Text, codes, text_eq, text_in, Dict, values,
}
use seasonal_weather.Health.{
  HealthStateConfig, Mode, normal, source_impaired, degraded, critical_degraded, detached,
  default_context, SourceState, is_enabled, ProbeOutcome, returned, raised, HealthStateMachine,
  microseconds, or_text, mark_success, mark_failure, impaired_sources,
}

pub has_alert_role : SourceState → Bool
unfolding text_in
has_alert_role st = text_in st.cfg.role (codes "alert" ∷ codes "alert_redundant" ∷ [])

pub is_primary_alert : SourceState → Bool
unfolding text_eq
is_primary_alert st = text_eq st.cfg.role (codes "alert") || st.cfg.critical

pub has_forecast_role : SourceState → Bool
unfolding text_in
has_forecast_role st = text_in st.cfg.role (codes "forecast" ∷ codes "observation" ∷ [])

pub is_enabled_alert : SourceState → Bool
unfolding is_enabled has_alert_role
is_enabled_alert st = is_enabled st && has_alert_role st

-- `f"{st.cfg.name}:{st.cfg.role}"`
pub reason_of : SourceState → Text
reason_of st = st.cfg.name ++ codes ":" ++ st.cfg.role

-- the ladder of `_compute_mode` below its first return
pub severity : List SourceState → List SourceState → Mode
unfolding has_alert_role is_primary_alert has_forecast_role
severity enabled_alert impaired =
    let alert = keep has_alert_role impaired in
    if nonempty enabled_alert && leb (length enabled_alert) (length alert)
    then detached
    else if nonempty (keep is_primary_alert impaired)
    then critical_degraded
    else if nonempty alert && nonempty (keep has_forecast_role impaired)
    then degraded
    else if nonempty alert
    then source_impaired
    else degraded

pub compute_mode : List SourceState → HealthStateMachine → Mode × List Text
unfolding severity is_enabled_alert reason_of
compute_mode impaired h =
    if nonempty impaired
    then (severity (keep is_enabled_alert (values h.sources)) impaired, map reason_of impaired)
    else (normal, [])

pub message_for_mode : HealthStateConfig → Mode → Text
message_for_mode cfg source_impaired = cfg.source_impaired_message
message_for_mode cfg critical_degraded = cfg.critical_message
message_for_mode cfg detached = cfg.detached_message
message_for_mode cfg degraded = cfg.degraded_message
message_for_mode cfg normal = []

-- the mode's string with each `_` replaced by a space
pub spoken_mode : Mode → Text
spoken_mode normal = codes "normal"
spoken_mode source_impaired = codes "source impaired"
spoken_mode degraded = codes "degraded"
spoken_mode critical_degraded = codes "critical degraded"
spoken_mode detached = codes "detached"

abbrev pub is_normal : Mode → Bool
is_normal normal = true
is_normal _ = false

abbrev pub is_detached : Mode → Bool
is_detached detached = true
is_detached _ = false

pub same_mode : Mode → Mode → Bool
same_mode normal normal = true
same_mode source_impaired source_impaired = true
same_mode degraded degraded = true
same_mode critical_degraded critical_degraded = true
same_mode detached detached = true
same_mode _ _ = false

-- `", ".join(reasons)`
pub join_reasons : List Text → Text
join_reasons [] = []
join_reasons (r ∷ []) = r
join_reasons (r ∷ s ∷ rest) = r ++ codes ", " ++ join_reasons (s ∷ rest)

pub status_line_for : Mode → List Text → Text
unfolding spoken_mode join_reasons
status_line_for m reasons =
    if is_normal m
    then []
    else codes "Data feed status: "
      ++ spoken_mode m
      ++ codes ". Affected sources: "
      ++ or_text (join_reasons reasons) (codes "unknown")
      ++ codes "."

-- the inner test of the hysteresis: the old mode is held
pub holds : ℕ → HealthStateMachine → Mode → Bool
holds now h new_mode =
    not (is_normal h.mode)
    && is_normal new_mode
    && ltb now (h.mode_since + microseconds (at_least 0 h.cfg.min_hold_seconds))

-- the mode and the reasons that the hysteresis lets through
pub settle : ℕ → HealthStateMachine → Mode × List Text → Mode × List Text
unfolding holds same_mode
settle now h (new_mode, reasons) =
    if not (same_mode h.mode new_mode) && holds now h new_mode
    then (h.mode, h.last_snapshot.reasons)
    else (new_mode, reasons)

-- the rest of `evaluate`
pub publish : ℕ → HealthStateMachine → Mode × List Text → HealthStateMachine
unfolding same_mode message_for_mode status_line_for
publish now h (new_mode, reasons) = record h {
  mode = new_mode;
  mode_since = if same_mode h.mode new_mode then h.mode_since else now;
  last_snapshot = record {
    mode = new_mode;
    notice = message_for_mode h.cfg new_mode;
    status_line = status_line_for new_mode reasons;
    detached_loop_only = is_detached new_mode && h.cfg.detached_loop_only;
    reasons = reasons;
  };
}

-- the context that it returns is the new `last_snapshot`
pub evaluate : ℕ → HealthStateMachine → HealthStateMachine
unfolding impaired_sources compute_mode settle publish
evaluate now h =
    if h.cfg.enabled
    then publish now h (settle now h (compute_mode (impaired_sources now h) h))
    else record h { last_snapshot = default_context }

-- A cancelled probe ends the loop of `run_forever`, and has no outcome here.
pub run_probe_once : Text → ProbeOutcome × ℕ → HealthStateMachine → HealthStateMachine
unfolding mark_success mark_failure
run_probe_once source (returned, now) h = mark_success source now h
run_probe_once source (raised error, now) h = mark_failure source now (some error) h

-- `env` says what each probe's call did and when it ended
pub run_probes : (Text → ℕ → ProbeOutcome × ℕ) → Dict ℕ → HealthStateMachine → HealthStateMachine
unfolding run_probe_once
run_probes env [] h = h
run_probes env ((source, probe) ∷ rest) h =
    run_probes env rest (run_probe_once source (env source probe) h)

-- One round of `run_forever`: the new machine, and whether `on_change` is called.
pub round :
    (Text → ℕ → ProbeOutcome × ℕ) → ℕ → HealthStateMachine → Mode → HealthStateMachine × Bool
unfolding run_probes evaluate same_mode
round env now h previous =
    let h' = evaluate now (run_probes env h.probes h) in
    (h', not (same_mode h'.last_snapshot.mode previous))

-- What a round of the loop meets: the probes' outcomes, and the clock of `evaluate`.
abbrev pub Round : Type 0
Round = (Text → ℕ → ProbeOutcome × ℕ) × ℕ

-- `run_forever` over the rounds made, with the modes that `on_change` was called with.
pub run_rounds : List Round → HealthStateMachine → Mode → HealthStateMachine × List Mode
unfolding round
run_rounds [] h previous = (h, [])
run_rounds ((env, now) ∷ rest) h previous =
    let (h', changed) = round env now h previous in
    let (last, told) = run_rounds rest h' h'.last_snapshot.mode in
    (last, if changed then h'.last_snapshot.mode ∷ told else told)

pub run_forever : List Round → HealthStateMachine → HealthStateMachine × List Mode
unfolding run_rounds
run_forever rounds h = if h.cfg.enabled then run_rounds rounds h h.last_snapshot.mode else (h, [])
