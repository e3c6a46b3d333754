-- ===== src/Schedule/Postpone/Attempts.antt =====
-- A blocked test is tried again a bounded number of times, and never past its last time.
use seasonal_weather.Prelude.{
  ℕ, suc, ◌+◌, ◌-◌, ◌*◌, ◌/◌, ◌≤◌, ◌<◌, ◌≡◌, refl, arith, Bool, true, false, some, List, [], ◌∷◌,
  length, Text, inl, inr, Bool-cases, Option-cases,
}
use seasonal_weather.Schedule.{day, hour, minute}
use seasonal_weather.Schedule.Postpone.{
  PostponePolicy, no_postpone, fixed_delay, delay_window, next_day, skip_day, skip_week,
  next_postpone_attempt, Attempt, AttemptOutcome, fired, skipped, waiting, attempts,
  PostponeSchedule, attempt_with_postpone, postpone_policy_for, postpone_minutes_for,
  max_postpone_hours_for, max_postpone_days_for,
}

pub is_waiting : AttemptOutcome → Bool
is_waiting (fired at now) = false
is_waiting (skipped at now) = false
is_waiting (waiting at) = true

-- the attempts that a policy leaves after some
left_of : PostponePolicy → ℕ → ℕ → ℕ → ℕ → ℕ
left_of no_postpone attempt_at deadline max_days blocked = 0
left_of skip_day attempt_at deadline max_days blocked = 0
left_of skip_week attempt_at deadline max_days blocked = 0
left_of fixed_delay attempt_at deadline max_days blocked = 1 - blocked
left_of delay_window attempt_at deadline max_days blocked = (deadline - attempt_at) / minute
left_of next_day attempt_at deadline max_days blocked = max_days - blocked

-- each new attempt is one fewer
next-left_of :
    (policy : PostponePolicy)
    (scheduled postpone deadline max_days blocked attempt_at late next : ℕ)
    → minute ≤ postpone
    → next_postpone_attempt policy scheduled (attempt_at + late) blocked postpone deadline max_days
      ≡ some next
    → left_of policy next deadline max_days (suc blocked)
      < left_of policy attempt_at deadline max_days blocked
unfolding next_postpone_attempt left_of
next-left_of no_postpone scheduled postpone deadline max_days blocked attempt_at late next p e = cc
next-left_of skip_day scheduled postpone deadline max_days blocked attempt_at late next p e = cc
next-left_of skip_week scheduled postpone deadline max_days blocked attempt_at late next p e = cc
next-left_of fixed_delay scheduled postpone deadline max_days blocked attempt_at late next p e =
    ground (arith, p, e)
next-left_of delay_window scheduled postpone deadline max_days blocked attempt_at late next p e =
    ground (arith, p, e)
next-left_of next_day scheduled postpone deadline max_days blocked attempt_at late next p e =
    ground (arith, p, e)

-- the last time at which a policy tries a test
pub last_attempt : PostponePolicy → ℕ → ℕ → ℕ → ℕ
last_attempt no_postpone scheduled deadline max_days = scheduled
last_attempt skip_day scheduled deadline max_days = scheduled
last_attempt skip_week scheduled deadline max_days = scheduled
last_attempt fixed_delay scheduled deadline max_days = deadline
last_attempt delay_window scheduled deadline max_days = deadline
last_attempt next_day scheduled deadline max_days = scheduled + max_days * day

next-last_attempt :
    (policy : PostponePolicy) (scheduled postpone deadline max_days blocked now next : ℕ)
    → next_postpone_attempt policy scheduled now blocked postpone deadline max_days ≡ some next
    → next ≤ last_attempt policy scheduled deadline max_days
unfolding next_postpone_attempt last_attempt
next-last_attempt no_postpone scheduled postpone deadline max_days blocked now next e = cc
next-last_attempt skip_day scheduled postpone deadline max_days blocked now next e = cc
next-last_attempt skip_week scheduled postpone deadline max_days blocked now next e = cc
next-last_attempt fixed_delay scheduled postpone deadline max_days blocked now next e =
    ground (arith, e)
next-last_attempt delay_window scheduled postpone deadline max_days blocked now next e =
    ground (arith, e)
next-last_attempt next_day scheduled postpone deadline max_days blocked now next e =
    ground (arith, e)

-- an outcome whose attempt was in time, and which fired at an open gate or not at all
pub InTime : ℕ → AttemptOutcome → Type 0
InTime last (fired at now) = (at ≤ last) × (at ≤ now)
InTime last (skipped at now) = (at ≤ last) × (at ≤ now)
InTime last (waiting at) = at ≤ last

module _ (policy : PostponePolicy) (scheduled postpone deadline max_days : ℕ)
    (p : minute ≤ postpone) where
  attempts-is_waiting :
      (blocked attempt_at : ℕ) (seen : List Attempt)
      → left_of policy attempt_at deadline max_days blocked < length seen
      → is_waiting (attempts policy scheduled postpone deadline max_days blocked attempt_at seen)
        ≡ false
  unfolding attempts is_waiting
  attempts-is_waiting blocked attempt_at [] enough = ground arith
  attempts-is_waiting blocked attempt_at (a ∷ later) enough = elim (Bool-cases a.is_open) [
    | inl opened ↦ rw (opened, attempts) refl
    | inr shut ↦
        elim (Option-cases (
          next_postpone_attempt policy scheduled (attempt_at + a.late) blocked postpone deadline
            max_days)) [
              | inl end ↦ rw (shut, attempts, end) refl
              | inr (next, e) ↦
                  rw (shut, attempts, e)
                    (attempts-is_waiting (suc blocked) next later (
                      omega (
                        arith,
                        next-left_of policy scheduled postpone deadline max_days blocked attempt_at
                            a.late next p e,
                      )))
            ]
  ]

  attempts-InTime :
      (blocked attempt_at : ℕ) (seen : List Attempt)
      → attempt_at ≤ last_attempt policy scheduled deadline max_days
      → InTime
          (last_attempt policy scheduled deadline max_days)
          (attempts policy scheduled postpone deadline max_days blocked attempt_at seen)
  unfolding attempts InTime
  attempts-InTime blocked attempt_at [] h = h
  attempts-InTime blocked attempt_at (a ∷ later) h = elim (Bool-cases a.is_open) [
    | inl opened ↦ rw (opened, attempts) (h, omega arith)
    | inr shut ↦
        elim (Option-cases (
          next_postpone_attempt policy scheduled (attempt_at + a.late) blocked postpone deadline
            max_days)) [
              | inl end ↦ rw (shut, attempts, end) (h, omega arith)
              | inr (next, e) ↦
                  rw (shut, attempts, e)
                    (attempts-InTime (suc blocked) next later (
                      next-last_attempt policy scheduled postpone deadline max_days blocked
                        (attempt_at + a.late) next e))
            ]
  ]

-- as many attempts as a policy can make, the first included
unfoldable pub most_attempts : PostponePolicy → ℕ → ℕ → ℕ
most_attempts no_postpone hours max_days = 1
most_attempts skip_day hours max_days = 1
most_attempts skip_week hours max_days = 1
most_attempts fixed_delay hours max_days = 2
most_attempts delay_window hours max_days = 60 * hours + 1
most_attempts next_day hours max_days = max_days + 1

most_attempts-left_of :
    (policy : PostponePolicy) (scheduled hours max_days : ℕ)
    → most_attempts policy hours max_days
      ≡ suc (left_of policy scheduled (scheduled + hours * hour) max_days 0)
unfolding most_attempts left_of
most_attempts-left_of no_postpone scheduled hours max_days = refl
most_attempts-left_of skip_day scheduled hours max_days = refl
most_attempts-left_of skip_week scheduled hours max_days = refl
most_attempts-left_of fixed_delay scheduled hours max_days = refl
most_attempts-left_of delay_window scheduled hours max_days = omega arith
most_attempts-left_of next_day scheduled hours max_days = omega arith

scheduled_in_time :
    (policy : PostponePolicy) (scheduled hours max_days : ℕ)
    → scheduled ≤ last_attempt policy scheduled (scheduled + hours * hour) max_days
unfolding last_attempt
scheduled_in_time no_postpone scheduled hours max_days = omega arith
scheduled_in_time skip_day scheduled hours max_days = omega arith
scheduled_in_time skip_week scheduled hours max_days = omega arith
scheduled_in_time fixed_delay scheduled hours max_days = omega arith
scheduled_in_time delay_window scheduled hours max_days = omega arith
scheduled_in_time next_day scheduled hours max_days = omega arith

-- A blocked test is settled after a bounded number of attempts: it has fired or is skipped when as many attempts
-- have come as its policy allows, which is one without postponement, two for a fixed delay, one per minute of
-- the window for a delay window, and one per day for the next day, besides the first.
pub attempt_with_postpone-is_waiting :
    (event_code : Text) (s : PostponeSchedule) (scheduled : ℕ) (seen : List Attempt)
    → most_attempts
        (postpone_policy_for event_code s)
        (max_postpone_hours_for event_code s)
        (max_postpone_days_for event_code s)
      ≤ length seen
    → is_waiting (attempt_with_postpone event_code s scheduled seen) ≡ false
unfolding attempt_with_postpone postpone_minutes_for
attempt_with_postpone-is_waiting event_code s scheduled seen enough =
    attempts-is_waiting (postpone_policy_for event_code s) scheduled
      (postpone_minutes_for event_code s * minute)
      (scheduled + max_postpone_hours_for event_code s * hour) (max_postpone_days_for event_code s)
      (omega arith) 0 scheduled seen
      (omega (
        arith,
        most_attempts-left_of (postpone_policy_for event_code s) scheduled
            (max_postpone_hours_for event_code s) (max_postpone_days_for event_code s),
      ))

-- Every attempt at a test comes not after the last time of its policy: the
-- end of the window for a delay, the last of its days for the next day, the scheduled time for the others. Its
-- gate is asked at that time or later.
pub attempt_with_postpone-InTime :
    (event_code : Text) (s : PostponeSchedule) (scheduled : ℕ) (seen : List Attempt)
    → InTime
        (last_attempt
          (postpone_policy_for event_code s)
          scheduled
          (scheduled + max_postpone_hours_for event_code s * hour)
          (max_postpone_days_for event_code s))
        (attempt_with_postpone event_code s scheduled seen)
unfolding attempt_with_postpone postpone_minutes_for
attempt_with_postpone-InTime event_code s scheduled seen =
    attempts-InTime (postpone_policy_for event_code s) scheduled
      (postpone_minutes_for event_code s * minute)
      (scheduled + max_postpone_hours_for event_code s * hour) (max_postpone_days_for event_code s)
      (omega arith) 0 scheduled seen
      (scheduled_in_time (postpone_policy_for event_code s) scheduled
        (max_postpone_hours_for event_code s) (max_postpone_days_for event_code s))
