-- ===== src/Health/Sources.antt =====
-- What the marks do to a source: failures in a row impair it, a success clears it.
use seasonal_weather.Prelude.{
  Option, ℕ, ◌+◌, ◌≤◌, ◌≡◌, refl, true, false, some, List, [], ◌∷◌, arith, if◌then◌else◌, length,
  at_least, Text, text_eq, text_eq_iff, text_eq_refl, get, get-put, Option-cases, inl, inr,
}
use mathlib.Core.Option
use seasonal_weather.Health.{
  SourceState, HealthStateMachine, is_enabled, with_source, failed_source, succeeded_source,
  mark_success, mark_failure, is_impaired, microseconds,
}

-- Only the named source changes, and it changes as told.
pub get-with_source :
    (source j : Text) (change : SourceState → SourceState) (h : HealthStateMachine)
    → get j (with_source source change h).sources
      ≡ (if text_eq source j then Option.map change (get source h.sources) else get j h.sources)
unfolding with_source
get-with_source source j change h = elim (Option-cases (get source h.sources)) [
  | inl missing ↦ ground (arith, missing, text_eq_iff source j)
  | inr (st, found) ↦ ground (arith, found, get-put j source (change st) h.sources)
]

-- failures of one source in a row, each with its clock and its error
unfoldable pub mark_failures :
    Text → List (ℕ × Option Text) → HealthStateMachine → HealthStateMachine
mark_failures source [] h = h
mark_failures source ((now, error) ∷ rest) h =
    mark_failures source rest (mark_failure source now error h)

pub failed_times : List (ℕ × Option Text) → SourceState → SourceState
failed_times [] st = st
failed_times ((now, error) ∷ rest) st = failed_times rest (failed_source now error st)

get-mark_failures :
    (source : Text) (fs : List (ℕ × Option Text)) (h : HealthStateMachine) {st : SourceState}
    → get source h.sources ≡ some st
    → get source (mark_failures source fs h).sources ≡ some (failed_times fs st)
unfolding mark_failures failed_times
get-mark_failures source [] h found = found
get-mark_failures source ((now, error) ∷ rest) h {st} found =
    get-mark_failures source rest (mark_failure source now error h) (
      unfold mark_failure in
      ground
        (arith, get-with_source source source (failed_source now error) h, text_eq_refl source))

-- failures count up, and leave the rest of what is read of a source alone
failed_times_fields :
    (fs : List (ℕ × Option Text)) (st : SourceState)
    → ((failed_times fs st).consecutive_failures ≡ st.consecutive_failures + length fs)
      × ((failed_times fs st).cfg ≡ st.cfg)
      × ((failed_times fs st).disabled_reason ≡ st.disabled_reason)
unfolding failed_times failed_source
failed_times_fields [] st = (omega arith, refl, refl)
failed_times_fields ((now, error) ∷ rest) st =
    let (count, same, reason) = failed_times_fields rest (failed_source now error st) in
    (omega (arith, count), same, reason)

-- An enabled source of the table is impaired at any time after as many failures in a row as its
-- threshold, or 1 where that is less, and no success between.
pub mark_failures-is_impaired :
    (source : Text) (fs : List (ℕ × Option Text)) (h : HealthStateMachine) (now : ℕ)
    {st : SourceState}
    → get source h.sources ≡ some st
    → is_enabled st ≡ true
    → at_least 1 st.cfg.failure_threshold ≤ length fs
    → (st' : SourceState) × (get source (mark_failures source fs h).sources ≡ some st')
      × (is_impaired now st' ≡ true)
unfolding is_impaired
mark_failures-is_impaired source fs h now {st} found enabled enough = (
  failed_times fs st,
  get-mark_failures source fs h found,
  ground (arith, failed_times_fields fs st),
)

-- After `mark_success` a source of the table is not impaired until its staleness limit has passed.
pub mark_success-is_impaired :
    (source : Text) (h : HealthStateMachine) (at now : ℕ) {st : SourceState}
    → get source h.sources ≡ some st
    → now ≤ at + microseconds (at_least 1 st.cfg.stale_after_seconds)
    → (st' : SourceState) × (get source (mark_success source at h).sources ≡ some st')
      × (is_impaired now st' ≡ false)
unfolding mark_success is_impaired
mark_success-is_impaired source h at now {st} found fresh = (
  succeeded_source at st,
  ground (arith, get-with_source source source (succeeded_source at) h, text_eq_refl source),
  unfold succeeded_source in ground arith,
)
