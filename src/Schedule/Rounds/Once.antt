-- ===== src/Schedule/Rounds/Once.antt =====
-- No two tests of a kind are completed in the same week or month.

use seasonal_weather.Prelude.{
  ℕ, zero, suc, ◌≤◌, ◌<◌, ◌≡◌, ◌⊎◌, inl, inr, refl, sym, ap, ◌∙◌, arith, Bool, true, false, ◌&&◌,
  ◌/◌, Option, none, some, List, [], ◌∷◌, if◌then◌else◌, leb, ◌==◌, Text, text_eq, text_eq_refl,
  Bool-cases, Option-cases,
}
use seasonal_weather.Schedule.{day, next_weekly, next_monthly_nth_weekday, monthly_from}
use seasonal_weather.Schedule.Postpone.{
  AttemptOutcome, fired, skipped, waiting, attempt_with_postpone,
}
use seasonal_weather.Schedule.Rounds.{
  EventCode, rwt, rmt, code_text, RwtRmtSchedule, TestState, Round, rwt_due, rmt_due, pick,
  next_event, RoundOutcome, nothing_enabled, already_ran, attempted, last_period, remember_period,
  period_key, year_of, month_of, completed, run_round,
}
use seasonal_weather.Schedule.Rounds.Periods.{period, period_key_told, period_mono}

true_not_false : ¬ (true ≡ false)
true_not_false e = cc

next_weekly-later : (now weekday h m : ℕ) → now < next_weekly now weekday h m
unfolding next_weekly
next_weekly-later now weekday h m = ground arith

monthly_from-later :
    (tries now y m nth weekday h mi : ℕ) → now < monthly_from tries now y m nth weekday h mi
unfolding monthly_from
monthly_from-later zero now y m nth weekday h mi = omega arith
monthly_from-later (suc tries) now y m nth weekday h mi = ground (
  arith,
  monthly_from-later tries now (suc y) 1 nth weekday h mi,
  monthly_from-later tries now y (suc m) nth weekday h mi,
)

-- a round's test is due after its start
next_event-later :
    (s : RwtRmtSchedule) (r : Round) (code : EventCode) (due : ℕ)
    → next_event s r ≡ some (code, due)
    → r.now < due
unfolding next_event rwt_due rmt_due next_monthly_nth_weekday pick
next_event-later s r code due e = ground (
  arith,
  e,
  next_weekly-later r.now s.rwt_weekday s.rwt_hour s.rwt_minute,
  monthly_from-later 15 r.now (year_of (r.now / day)) (month_of (r.now / day)) s.rmt_nth
      s.rmt_weekday s.rmt_hour s.rmt_minute,
)

pub is_same_code : EventCode → EventCode → Bool
is_same_code rwt rwt = true
is_same_code rwt rmt = false
is_same_code rmt rwt = false
is_same_code rmt rmt = true

-- the time at which a round completes a test of this kind
pub fired_at : ℕ → AttemptOutcome → Option ℕ
fired_at completed_at (fired at now) = some completed_at
fired_at completed_at (skipped at now) = none
fired_at completed_at (waiting at) = none

pub completion : EventCode → ℕ → RoundOutcome → Option ℕ
completion code completed_at nothing_enabled = none
completion code completed_at (already_ran other due) = none
completion code completed_at (attempted other due outcome) =
    if is_same_code code other then fired_at completed_at outcome else none

-- each round begins after the one before, and a test ends after it is due
unfoldable pub is_in_order : RwtRmtSchedule → ℕ → List Round → Bool
is_in_order s from [] = true
is_in_order s from (r ∷ rounds) =
    leb from r.now
    && (leb r.now r.completed_at
        && (elim (next_event s r) [ none ↦ true | some (code, due) ↦ leb due r.completed_at ]
            && is_in_order s r.completed_at rounds))

-- above a number, if there is one
abbrev pub Above : Option ℕ → ℕ → Type 0
Above none n = Unit
Above (some low) n = low < n

abbrev pub Increasing : Option ℕ → List ℕ → Type 0
Increasing low [] = Unit
Increasing low (n ∷ ns) = Above low n × Increasing (some n) ns

abbrev key : EventCode → ℕ → Text
key code t = period_key code t

-- a round that completes no such test, and one that does
abbrev Kept : EventCode → TestState → Option ℕ → TestState → Type 0
Kept code t at t' = (at ≡ none) × (last_period code t' ≡ last_period code t)

abbrev Done : EventCode → Round → TestState → Option ℕ → TestState → Type 0
Done code r t at t' =
    (at ≡ some r.completed_at)
    × (last_period code t' ≡ key code r.completed_at)
    × ((due : ℕ) × (r.now < due)
        × (due ≤ r.completed_at)
        × (text_eq (last_period code t) (key code due) ≡ false))

attempt_step :
    (code other : EventCode) (due : ℕ) (outcome : AttemptOutcome) (r : Round) (t : TestState)
    → r.now < due
    → due ≤ r.completed_at
    → text_eq (last_period other t) (key other due) ≡ false
    → Kept code t
        (completion code r.completed_at (attempted other due outcome))
        (completed other r.completed_at outcome t)
      ⊎ Done code r t
          (completion code r.completed_at (attempted other due outcome))
          (completed other r.completed_at outcome t)
unfolding completion completed remember_period last_period fired_at is_same_code period_key
attempt_step rwt rwt due (fired at now) r t late done new = inr (refl, refl, (due, late, done, new))
attempt_step rwt rwt due (skipped at now) r t late done new = inl (refl, refl)
attempt_step rwt rwt due (waiting at) r t late done new = inl (refl, refl)
attempt_step rwt rmt due (fired at now) r t late done new = inl (refl, refl)
attempt_step rwt rmt due (skipped at now) r t late done new = inl (refl, refl)
attempt_step rwt rmt due (waiting at) r t late done new = inl (refl, refl)
attempt_step rmt rwt due (fired at now) r t late done new = inl (refl, refl)
attempt_step rmt rwt due (skipped at now) r t late done new = inl (refl, refl)
attempt_step rmt rwt due (waiting at) r t late done new = inl (refl, refl)
attempt_step rmt rmt due (fired at now) r t late done new = inr (refl, refl, (due, late, done, new))
attempt_step rmt rmt due (skipped at now) r t late done new = inl (refl, refl)
attempt_step rmt rmt due (waiting at) r t late done new = inl (refl, refl)

round_step :
    (code : EventCode) (s : RwtRmtSchedule) (r : Round) (t : TestState)
    → elim (next_event s r) as (λ x. Bool) [
      | none ↦ true
      | some (other, due) ↦ leb due r.completed_at
    ]
      ≡ true
    → Kept code t (completion code r.completed_at (run_round s r t).0) (run_round s r t).1
      ⊎ Done code r t (completion code r.completed_at (run_round s r t).0) (run_round s r t).1
unfolding run_round completion
round_step code s r t timely = elim (Option-cases (next_event s r)) [
  | inl e ↦ rw (e, run_round) (inl (refl, refl))
  | inr ((other, due), e) ↦ elim (Bool-cases (text_eq (last_period other t) (key other due))) [
    | inl ran ↦ rw (e, run_round, ran) (inl (refl, refl))
    | inr new ↦
        rw (e, run_round, new)
          (attempt_step code other due
            (attempt_with_postpone (code_text other) s.postpone due r.seen) r t
            (next_event-later s r other due e) (ground (arith, timely, e)) new)
  ]
]

-- the periods in which the rounds complete tests of this kind
pub completed_periods : EventCode → RwtRmtSchedule → List Round → TestState → List ℕ
completed_periods code s [] t = []
completed_periods code s (r ∷ rounds) t =
    let (outcome, t') = run_round s r t in
    let others = completed_periods code s rounds t' in
    elim (completion code r.completed_at outcome) [
      | none ↦ others
      | some at ↦ period code at ∷ others
    ]

-- what is remembered of the last test
unfoldable pub IsLast : EventCode → Option ℕ → ℕ → TestState → Type 0
IsLast code none from t = Unit
IsLast code (some low) from t =
    (at : ℕ) × (period code at ≡ low) × (at ≤ from) × (last_period code t ≡ key code at)

new_period :
    (code : EventCode) (t : TestState) (at due : ℕ)
    → at ≤ due
    → last_period code t ≡ key code at
    → text_eq (last_period code t) (key code due) ≡ false
    → period code at < period code due
new_period code t at due before last new = elim (Bool-cases (period code at == period code due)) [
  | inl same ↦ absurd (
      true_not_false (
        sym (text_eq_refl (key code due))
        ∙ (ap (λ k. text_eq k (key code due))
              (sym (last ∙ period_key_told code at due (ground (arith, same))))
            ∙ new)))
  | inr other ↦ ground (arith, period_mono code at due before, other)
]

Done-Above :
    (code : EventCode) (low : Option ℕ) (from : ℕ) (r : Round) (t t' : TestState) (at : Option ℕ)
    → IsLast code low from t
    → from ≤ r.now
    → Done code r t at t'
    → Above low (period code r.completed_at)
unfolding IsLast
Done-Above code none from r t t' at h order d = tt
Done-Above code (some low) from r t t' at (last, is_low, past, known) order
      (a, b, (due, late, done, new)) =
    omega (
      arith,
      is_low,
      new_period code t last due (omega (arith, late, past)) known new,
      period_mono code due r.completed_at done,
    )

Kept-IsLast :
    (code : EventCode) (low : Option ℕ) (from to : ℕ) (t t' : TestState)
    → IsLast code low from t
    → from ≤ to
    → last_period code t' ≡ last_period code t
    → IsLast code low to t'
unfolding IsLast
Kept-IsLast code none from to t t' h order same = tt
Kept-IsLast code (some low) from to t t' (last, is_low, past, known) order same =
    (last, is_low, omega arith, same ∙ known)

-- The weeks in which the rounds complete weekly tests increase strictly, and so do the months in which they complete
-- monthly tests: no two tests of a kind are completed in the same ISO week or in the same month, also over
-- blocked and postponed tests. The rounds follow one another in time, a test ends after it is due, and what is
-- remembered at the start is the key of a time before the rounds, or nothing is assumed of it.
pub completed_periods-Increasing :
    (code : EventCode) (s : RwtRmtSchedule) (rounds : List Round) (t : TestState) (low : Option ℕ)
    (from : ℕ)
    → IsLast code low from t
    → is_in_order s from rounds ≡ true
    → Increasing low (completed_periods code s rounds t)
unfolding completed_periods is_in_order
completed_periods-Increasing code s [] t low from h order = tt
completed_periods-Increasing code s (r ∷ rounds) t low from h order =
    let t' = (run_round s r t).1 in
    let at = completion code r.completed_at (run_round s r t).0 in
    elim (round_step code s r t (ground (arith, order))) [
      | inl (none_done, same) ↦
          rw (none_done, completed_periods)
            (completed_periods-Increasing code s rounds t' low r.completed_at
              (Kept-IsLast code low from r.completed_at t t' h (ground (arith, order)) same)
              (ground (arith, order)))
      | inr (one_done, last, new) ↦
          rw (one_done, completed_periods)
            (
              Done-Above code low from r t t' at h (ground (arith, order)) (one_done, last, new),
              completed_periods-Increasing code s rounds t' (some (period code r.completed_at))
                  r.completed_at (unfold IsLast in (r.completed_at, refl, omega arith, last))
                  (ground (arith, order)),
            )
    ]
