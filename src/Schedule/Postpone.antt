-- ===== src/Schedule/Postpone.antt =====
-- broadcast/rwt_rmt.py and broadcast/tests.py: the attempts at a test that is blocked. The stop event only ends
-- the list of attempts.
pub mod Attempts
mod Examples
use seasonal_weather.Prelude.{
  ℕ, zero, suc, ◌+◌, ◌-◌, ◌*◌, ◌≤◌, ◌<◌, Bool, true, false, not, ◌&&◌, ◌||◌, Option, none, some,
  List, [], ◌∷◌, if◌then◌else◌, ltb, leb, ◌==◌, Text, codes, text_eq, strip, lower, upper, map, max,
  ℤ, at_least,
}
use seasonal_weather.Schedule.{day, hour, minute}

-- `VALID_POSTPONE_POLICIES`
pub data PostponePolicy : Type 0 where
  no_postpone : PostponePolicy
  fixed_delay : PostponePolicy
  delay_window : PostponePolicy
  next_day : PostponePolicy
  skip_day : PostponePolicy
  skip_week : PostponePolicy

unfoldable pub policy_named : Text → Option PostponePolicy
policy_named name =
    if text_eq name (codes "none")
    then some no_postpone
    else if text_eq name (codes "fixed_delay")
    then some fixed_delay
    else if text_eq name (codes "delay_window")
    then some delay_window
    else if text_eq name (codes "next_day")
    then some next_day
    else if text_eq name (codes "skip_day")
    then some skip_day
    else if text_eq name (codes "skip_week")
    then some skip_week
    else none

-- `.strip().lower().replace("-", "_")`
unfoldable pub policy_key : Text → Text
policy_key value = map (λ c. if c == 45 then 95 else c) (lower (strip value))

unfoldable pub normalize_postpone_policy : Text → Text → PostponePolicy
normalize_postpone_policy value default = elim (policy_named (policy_key value)) [
  | some policy ↦ policy
  | none ↦ elim (policy_named (policy_key default)) [ some policy ↦ policy | none ↦ delay_window ]
]

-- of a policy that is normalised already
unfoldable pub next_postpone_attempt : PostponePolicy → ℕ → ℕ → ℕ → ℕ → ℕ → ℕ → Option ℕ
next_postpone_attempt no_postpone scheduled now blocked_count postpone deadline max_days = none
next_postpone_attempt skip_day scheduled now blocked_count postpone deadline max_days = none
next_postpone_attempt skip_week scheduled now blocked_count postpone deadline max_days = none
next_postpone_attempt fixed_delay scheduled now blocked_count postpone deadline max_days =
    if leb 1 blocked_count
    then none
    else if leb (now + postpone) deadline
    then some (now + postpone)
    else none
next_postpone_attempt delay_window scheduled now blocked_count postpone deadline max_days =
    if leb (now + postpone) deadline then some (now + postpone) else none
next_postpone_attempt next_day scheduled now blocked_count postpone deadline max_days =
    if leb max_days blocked_count then none else some (scheduled + (blocked_count + 1) * day)

-- what an attempt meets: how long after its time it comes, and the answer of the gate
pub record Attempt : Type 0 where
  pub late : ℕ
  pub is_open : Bool

-- the time of the attempt and of its gate; `waiting` is for an attempt that is still to come
pub data AttemptOutcome : Type 0 where
  fired : ℕ → ℕ → AttemptOutcome
  skipped : ℕ → ℕ → AttemptOutcome
  waiting : ℕ → AttemptOutcome

module _ (policy : PostponePolicy) (scheduled postpone deadline max_days : ℕ) where
  -- the loop of `_attempt_with_postpone`
  unfoldable pub attempts : ℕ → ℕ → List Attempt → AttemptOutcome
  attempts blocked_count attempt_at [] = waiting attempt_at
  attempts blocked_count attempt_at (a ∷ later) =
      let now = attempt_at + a.late in
      let step = (λ (next : ℕ). attempts (suc blocked_count) next later) in
      if a.is_open
      then fired attempt_at now
      else elim (next_postpone_attempt policy scheduled now blocked_count postpone deadline
          max_days) [ none ↦ skipped attempt_at now | some next ↦ step next ]

-- the settings of one of the two tests
pub record PostponeSettings : Type 0 where
  pub postpone_policy : Text
  pub postpone_minutes : ℤ
  pub max_postpone_hours : ℤ
  pub max_postpone_days : ℤ

pub record PostponeSchedule : Type 0 where
  pub rwt : PostponeSettings
  pub rmt : PostponeSettings

unfoldable pub is_rwt : Text → Bool
is_rwt event_code = text_eq (upper (strip event_code)) (codes "RWT")

unfoldable pub postpone_policy_for : Text → PostponeSchedule → PostponePolicy
postpone_policy_for event_code s =
    if is_rwt event_code
    then normalize_postpone_policy s.rwt.postpone_policy (codes "next_day")
    else normalize_postpone_policy s.rmt.postpone_policy (codes "delay_window")

unfoldable pub settings_for : Text → PostponeSchedule → PostponeSettings
settings_for event_code s = if is_rwt event_code then s.rwt else s.rmt

unfoldable pub postpone_minutes_for : Text → PostponeSchedule → ℕ
postpone_minutes_for event_code s = at_least 1 (settings_for event_code s).postpone_minutes

unfoldable pub max_postpone_hours_for : Text → PostponeSchedule → ℕ
max_postpone_hours_for event_code s = at_least 0 (settings_for event_code s).max_postpone_hours

unfoldable pub max_postpone_days_for : Text → PostponeSchedule → ℕ
max_postpone_days_for event_code s = at_least 0 (settings_for event_code s).max_postpone_days

unfoldable pub attempt_with_postpone : Text → PostponeSchedule → ℕ → List Attempt → AttemptOutcome
attempt_with_postpone event_code s scheduled seen =
    attempts (postpone_policy_for event_code s) scheduled
      (postpone_minutes_for event_code s * minute)
      (scheduled + max_postpone_hours_for event_code s * hour) (max_postpone_days_for event_code s)
      0 scheduled seen
