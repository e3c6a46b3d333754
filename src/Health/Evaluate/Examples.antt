-- ===== src/Health/Evaluate/Examples.antt =====
-- A station with the default sources, and the theorems at its inputs.
use seasonal_weather.Prelude.{
  Option, some, none, not, false, ℕ, ◌≡◌, ◌≢◌, ◌⊎◌, refl, true, false, some, List, [], ◌∷◌, arith,
  ◌&&◌, pos, Text, codes, get, any, values, ◌↔◌,
}
use seasonal_weather.Health.{
  HealthStateConfig, HealthStateMachine, SourceState, normal, critical_degraded, detached, returned,
  default_health_sources, new_machine, is_enabled, is_impaired, mark_failure, mark_success,
  fresh_source, impaired_sources,
}
use seasonal_weather.Health.Sources.{
  mark_failures, mark_failures-is_impaired, mark_success-is_impaired,
}
use seasonal_weather.Health.Evaluate.{
  evaluate, is_enabled_alert, is_primary_alert, Round, run_rounds, run_forever,
}
use seasonal_weather.Health.Evaluate.Modes.{
  mode_at, mode_at-detached, mode_at-normal, mode_at_primary,
}
use seasonal_weather.Health.Evaluate.Hysteresis.{run_rounds-hold}
use seasonal_weather.Health.Evaluate.Snapshot.{
  IsPublished, Op, disable, succeed, fail, check, apply_all, apply_all-new_machine-IsPublished,
  last_told, run_forever-last_told,
}

abbrev station_config : HealthStateConfig
station_config = record {
  enabled = true;
  check_interval_seconds = pos 30;
  min_hold_seconds = pos 300;
  detached_loop_only = true;
  source_impaired_message = codes "reduced";
  degraded_message = codes "degraded";
  critical_message = codes "critical";
  detached_message = codes "detached";
  sources = default_health_sources;
}

abbrev station : HealthStateMachine
station = new_machine 0 station_config

abbrev cap_api : Text
cap_api = codes "cap_api"

abbrev three_failures : List (ℕ × Option Text)
three_failures = (1, some (codes "timeout")) ∷ (2, some []) ∷ (3, none) ∷ []

abbrev cap_source : SourceState
cap_source = fresh_source 0 (record {
  name = cap_api;
  enabled = true;
  role = codes "alert";
  stale_after_seconds = pos 300;
  failure_threshold = pos 3;
  critical = true;
})

cap_source_found : get cap_api station.sources ≡ some cap_source
unfolding new_machine default_health_sources get
cap_source_found = refl

mark_failures-is_impaired_example :
    (st' : SourceState) × (get cap_api (mark_failures cap_api three_failures station).sources
      ≡ some st')
    × (is_impaired 9 st' ≡ true)
unfolding is_enabled fresh_source
mark_failures-is_impaired_example =
    mark_failures-is_impaired cap_api three_failures station 9 cap_source_found refl (omega arith)

mark_success-is_impaired_example :
    (st' : SourceState) × (get cap_api (mark_success cap_api 9 station).sources ≡ some st')
    × (is_impaired 300000009 st' ≡ false)
unfolding fresh_source
mark_success-is_impaired_example =
    mark_success-is_impaired cap_api station 9 300000009 cap_source_found (omega arith)

-- the primary alert source has failed at the second microsecond
abbrev troubled : HealthStateMachine
troubled = evaluate 5 (mark_failures cap_api three_failures station)

troubled_mode : troubled.mode ≡ critical_degraded
unfolding evaluate mark_failures mark_failure new_machine default_health_sources get
    impaired_sources is_impaired
troubled_mode = refl

mode_at-detached_example : (mode_at 5 station ≡ detached) ↔ (
    (any is_enabled_alert (values station.sources) ≡ true)
    × (any (λ st. is_enabled_alert st && not (is_impaired 5 st)) (values station.sources) ≡ false))
mode_at-detached_example = mode_at-detached 5 station

mode_at-normal_example :
    (mode_at 5 station ≡ normal) ↔ (any (is_impaired 5) (values station.sources) ≡ false)
mode_at-normal_example = mode_at-normal 5 station

mode_at_primary_example : (mode_at 5 troubled ≡ critical_degraded) ⊎ (mode_at 5 troubled ≡ detached)
unfolding evaluate mark_failures mark_failure new_machine default_health_sources get
    impaired_sources is_impaired is_primary_alert
mode_at_primary_example = mode_at_primary 5 troubled refl

-- every probe succeeds, but the hold of 300 seconds is not over
abbrev recovered : List Round
recovered =
    ((λ source callable. (returned, 6)), 7) ∷ ((λ source callable. (returned, 8)), 300000004) ∷ []

run_rounds-hold_example : (run_rounds recovered troubled normal).0.mode ≢ normal
unfolding evaluate mark_failures mark_failure new_machine default_health_sources get
    impaired_sources is_impaired
run_rounds-hold_example =
    run_rounds-hold 5 recovered troubled normal refl (λ e. cc) (omega arith) (omega arith)

abbrev history : List Op
history =
    fail cap_api 3 (some (codes "timeout"))
    ∷ check 4
    ∷ disable cap_api []
    ∷ succeed cap_api 5
    ∷ check 900000001
    ∷ []

apply_all-new_machine-IsPublished_example :
    IsPublished (apply_all history (new_machine 0 station_config))
apply_all-new_machine-IsPublished_example =
    apply_all-new_machine-IsPublished 0 station_config history

run_forever-last_told_example :
    last_told troubled.last_snapshot.mode (run_forever recovered troubled).1
    ≡ (run_forever recovered troubled).0.last_snapshot.mode
run_forever-last_told_example = run_forever-last_told recovered troubled
