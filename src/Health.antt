-- ===== src/Health.antt =====
-- seasonalweather/health_state.py: the health of the data feeds. A `datetime` is the number of
-- microseconds since year 1 in UTC, and each call of `now` is an argument.
pub mod Sources
pub mod Evaluate
use seasonal_weather.Prelude.{
  ℕ, suc, ◌+◌, ◌*◌, Bool, true, false, not, ◌&&◌, ◌||◌, Option, none, some, List, [], ◌∷◌, ◌++◌,
  map, leb, ltb, if◌then◌else◌, length, take, keep, nonempty, ℤ, pos, at_least, Text, codes,
  text_eq, text_in, Dict, get, put, has, values,
}

pub record HealthSourceConfig : Type 0 where
  pub name : Text
  pub enabled : Bool
  pub role : Text
  pub stale_after_seconds : ℤ
  pub failure_threshold : ℤ
  pub critical : Bool

pub record HealthStateConfig : Type 0 where
  pub enabled : Bool
  pub check_interval_seconds : ℤ
  pub min_hold_seconds : ℤ
  pub detached_loop_only : Bool
  pub source_impaired_message : Text
  pub degraded_message : Text
  pub critical_message : Text
  pub detached_message : Text
  pub sources : List HealthSourceConfig

pub data Mode : Type 0 where
  normal source_impaired degraded critical_degraded detached : Mode

pub record HealthCycleContext : Type 0 where
  pub mode : Mode
  pub notice : Text
  pub status_line : Text
  pub detached_loop_only : Bool
  pub reasons : List Text

-- `HealthCycleContext()`
abbrev pub default_context : HealthCycleContext
default_context = record {
  mode = normal;
  notice = [];
  status_line = [];
  detached_loop_only = false;
  reasons = [];
}

pub record SourceState : Type 0 where
  pub cfg : HealthSourceConfig
  pub last_success : Option ℕ
  pub last_failure : Option ℕ
  pub observed_since : ℕ
  pub consecutive_failures : ℕ
  pub disabled_reason : Text
  pub last_error : Text

-- the property `enabled` of `_SourceState`
pub is_enabled : SourceState → Bool
is_enabled st = st.cfg.enabled && not (nonempty st.disabled_reason)

-- a probe is a callable: here its identity, and what a call of it did
pub data ProbeOutcome : Type 0 where
  returned : ProbeOutcome
  raised : Text → ProbeOutcome

pub record HealthStateMachine : Type 0 where
  pub cfg : HealthStateConfig
  pub sources : Dict SourceState
  pub probes : Dict ℕ
  pub mode : Mode
  pub mode_since : ℕ
  pub last_snapshot : HealthCycleContext

abbrev pub microseconds : ℕ → ℕ
microseconds seconds = seconds * 1000000

pub source_config : Text → Text → ℕ → ℕ → Bool → HealthSourceConfig
source_config name role stale threshold critical = record {
  name = name;
  enabled = true;
  role = role;
  stale_after_seconds = pos stale;
  failure_threshold = pos threshold;
  critical = critical;
}

pub default_health_sources : List HealthSourceConfig
unfolding source_config
default_health_sources =
    source_config (codes "nwws_oi") (codes "alert_redundant") 600 2 false
    ∷ source_config (codes "cap_api") (codes "alert") 300 3 true
    ∷ source_config (codes "nws_api") (codes "forecast") 900 3 false
    ∷ []

pub fresh_source : ℕ → HealthSourceConfig → SourceState
fresh_source now s = record {
  cfg = s;
  last_success = none;
  last_failure = none;
  observed_since = now;
  consecutive_failures = 0;
  disabled_reason = [];
  last_error = [];
}

-- the dictionary comprehension of `__init__`
pub source_table : ℕ → List HealthSourceConfig → Dict SourceState → Dict SourceState
unfolding fresh_source put
source_table now [] table = table
source_table now (s ∷ rest) table = source_table now rest (put s.name (fresh_source now s) table)

pub new_machine : ℕ → HealthStateConfig → HealthStateMachine
unfolding source_table
new_machine now cfg = record {
  cfg = cfg;
  sources = source_table now cfg.sources [];
  probes = [];
  mode = normal;
  mode_since = now;
  last_snapshot = default_context;
}

pub register_probe : Text → ℕ → HealthStateMachine → HealthStateMachine
unfolding get put
register_probe source probe h =
    if has source h.sources then record h { probes = put source probe h.probes } else h

-- a method that looks the source up, returns if there is none, and else changes its record
pub with_source : Text → (SourceState → SourceState) → HealthStateMachine → HealthStateMachine
unfolding get put
with_source source change h = elim (get source h.sources) [
  | none ↦ h
  | some st ↦ record h { sources = put source (change st) h.sources }
]

-- `value or fallback`
abbrev pub or_text : Text → Text → Text
or_text [] fallback = fallback
or_text (c ∷ s) fallback = c ∷ s

pub disabled_source : Text → SourceState → SourceState
disabled_source reason st = record st { disabled_reason = or_text reason (codes "disabled") }

pub succeeded_source : ℕ → SourceState → SourceState
succeeded_source now st = record st {
  last_success = some now;
  consecutive_failures = 0;
  last_error = [];
}

-- `error` is the object's text, which may be empty, and none for a falsy object
pub failed_source : ℕ → Option Text → SourceState → SourceState
failed_source now error st = record st {
  last_failure = some now;
  consecutive_failures = suc st.consecutive_failures;
  last_error = take 180 (elim error [ none ↦ codes "failure" | some text ↦ text ]);
}

pub mark_disabled : Text → Text → HealthStateMachine → HealthStateMachine
unfolding with_source disabled_source
mark_disabled source reason = with_source source (disabled_source reason)

pub mark_success : Text → ℕ → HealthStateMachine → HealthStateMachine
unfolding with_source succeeded_source
mark_success source now = with_source source (succeeded_source now)

pub mark_failure : Text → ℕ → Option Text → HealthStateMachine → HealthStateMachine
unfolding with_source failed_source
mark_failure source now error = with_source source (failed_source now error)

-- `st.last_success or st.observed_since`
pub reference : SourceState → ℕ
reference st = elim st.last_success [ none ↦ st.observed_since | some t ↦ t ]

pub is_stale : ℕ → SourceState → Bool
unfolding reference
is_stale now st = ltb (reference st + microseconds (at_least 1 st.cfg.stale_after_seconds)) now

pub has_failed : SourceState → Bool
has_failed st = leb (at_least 1 st.cfg.failure_threshold) st.consecutive_failures

pub is_impaired : ℕ → SourceState → Bool
unfolding is_enabled is_stale has_failed
is_impaired now st = is_enabled st && (is_stale now st || has_failed st)

pub impaired_sources : ℕ → HealthStateMachine → List SourceState
unfolding is_impaired
impaired_sources now h = keep (is_impaired now) (values h.sources)
