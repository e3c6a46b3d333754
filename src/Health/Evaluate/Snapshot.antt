-- ===== src/Health/Evaluate/Snapshot.antt =====
-- What the published context says, after any operations.
use seasonal_weather.Prelude.{
  Option, ℕ, ◌≡◌, ◌≢◌, refl, sym, ◌∙◌, ap, true, false, ◌&&◌, List, [], ◌∷◌, arith, Text, nonempty,
  has, Bool-cases, inl, inr,
}
use seasonal_weather.Health.{
  HealthStateConfig, HealthStateMachine, Mode, normal, new_machine, register_probe, mark_disabled,
  mark_success, mark_failure, impaired_sources, SourceState,
}
use seasonal_weather.Health.Evaluate.{
  message_for_mode, status_line_for, is_detached, compute_mode, settle, publish, evaluate,
  same_mode, Round, run_rounds, run_forever, round, run_probes,
}
use seasonal_weather.Health.Evaluate.Hysteresis.{SameMode, with_source-SameMode}

pub record IsPublished (h : HealthStateMachine) : Type 0 where
  pub current : h.last_snapshot.mode ≡ h.mode
  pub off_normal : h.cfg.enabled ≡ false → h.mode ≡ normal
  pub notice : h.last_snapshot.notice ≡ message_for_mode h.cfg h.mode
  pub status_line : h.last_snapshot.status_line ≡ status_line_for h.mode h.last_snapshot.reasons
  pub loop_only :
      h.last_snapshot.detached_loop_only ≡ (is_detached h.mode && h.cfg.detached_loop_only)
  pub explained : h.mode ≢ normal → nonempty h.last_snapshot.reasons ≡ true

IsPublished-SameMode : {a b : HealthStateMachine} → SameMode a b → IsPublished b → IsPublished a
IsPublished-SameMode {a} {b} s p = record {
  current = cc (s.last_snapshot, s.mode, p.current);
  off_normal = λ off. s.mode ∙ p.off_normal (cc (s.cfg));
  notice = cc (s.last_snapshot, s.mode, s.cfg, p.notice);
  status_line = cc (s.last_snapshot, s.mode, p.status_line);
  loop_only = cc (s.last_snapshot, s.mode, s.cfg, p.loop_only);
  explained =
      λ away. ap (λ c. nonempty c.reasons) s.last_snapshot ∙ p.explained (λ e. away (s.mode ∙ e));
}

compute_mode_explained :
    (impaired : List SourceState) (h : HealthStateMachine)
    → (compute_mode impaired h).0 ≢ normal
    → nonempty (compute_mode impaired h).1 ≡ true
unfolding compute_mode
compute_mode_explained [] h away = absurd (away refl)
compute_mode_explained (st ∷ rest) h away = refl

settle_explained :
    (now : ℕ) (h : HealthStateMachine) (m : Mode) (reasons : List Text)
    → (m ≢ normal → nonempty reasons ≡ true)
    → (h.mode ≢ normal → nonempty h.last_snapshot.reasons ≡ true)
    → (settle now h (m, reasons)).0 ≢ normal
    → nonempty (settle now h (m, reasons)).1 ≡ true
unfolding settle
settle_explained now h m reasons new old away = ground arith

publish-IsPublished :
    (now : ℕ) (h : HealthStateMachine) (m : Mode) (reasons : List Text)
    → h.cfg.enabled ≡ true
    → (m ≢ normal → nonempty reasons ≡ true)
    → IsPublished (publish now h (m, reasons))
unfolding publish
publish-IsPublished now h m reasons on why = record {
  current = refl;
  off_normal = λ off. cc;
  notice = refl;
  status_line = refl;
  loop_only = refl;
  explained = why;
}

evaluate-IsPublished :
    (now : ℕ) (h : HealthStateMachine) → IsPublished h → IsPublished (evaluate now h)
unfolding evaluate
evaluate-IsPublished now h p = elim (Bool-cases h.cfg.enabled) [
  | inl on ↦
      let (m, reasons) = compute_mode (impaired_sources now h) h in
      let (m', reasons') = settle now h (m, reasons) in
      simp on (
        publish-IsPublished now h m' reasons' on (
          settle_explained now h m reasons (compute_mode_explained (impaired_sources now h) h)
            (λ away. p.explained away)))
  | inr off ↦ simp off (record {
    current = sym (p.off_normal off);
    off_normal = p.off_normal;
    notice = unfold message_for_mode in ap (message_for_mode h.cfg) (sym (p.off_normal off));
    status_line = ap (λ m. status_line_for m []) (sym (p.off_normal off));
    loop_only = ap (λ m. is_detached m && h.cfg.detached_loop_only) (sym (p.off_normal off));
    explained = λ away. absurd (away (p.off_normal off));
  })
]

-- every call that changes a machine, with its clock
pub data Op : Type 0 where
  probe : Text → ℕ → Op
  disable : Text → Text → Op
  succeed : Text → ℕ → Op
  fail : Text → ℕ → Option Text → Op
  check : ℕ → Op

pub apply : Op → HealthStateMachine → HealthStateMachine
apply (probe source callable) h = register_probe source callable h
apply (disable source reason) h = mark_disabled source reason h
apply (succeed source now) h = mark_success source now h
apply (fail source now error) h = mark_failure source now error h
apply (check now) h = evaluate now h

pub apply_all : List Op → HealthStateMachine → HealthStateMachine
apply_all [] h = h
apply_all (op ∷ rest) h = apply_all rest (apply op h)

apply-IsPublished : (op : Op) (h : HealthStateMachine) → IsPublished h → IsPublished (apply op h)
unfolding apply mark_disabled mark_success mark_failure
apply-IsPublished (probe source callable) h p =
    unfold register_probe in
    elim (Bool-cases (has source h.sources)) [
      | inl known ↦ simp known (
          IsPublished-SameMode
            (record { cfg = refl; mode = refl; mode_since = refl; last_snapshot = refl }) p)
      | inr new ↦ simp new p
    ]
apply-IsPublished (disable source reason) h p =
    IsPublished-SameMode (with_source-SameMode source _ h) p
apply-IsPublished (succeed source now) h p =
    IsPublished-SameMode (with_source-SameMode source _ h) p
apply-IsPublished (fail source now error) h p =
    IsPublished-SameMode (with_source-SameMode source _ h) p
apply-IsPublished (check now) h p = evaluate-IsPublished now h p

apply_all-IsPublished :
    (ops : List Op) (h : HealthStateMachine) → IsPublished h → IsPublished (apply_all ops h)
unfolding apply_all
apply_all-IsPublished [] h p = p
apply_all-IsPublished (op ∷ rest) h p =
    apply_all-IsPublished rest (apply op h) (apply-IsPublished op h p)

new_machine-IsPublished : (now : ℕ) (cfg : HealthStateConfig) → IsPublished (new_machine now cfg)
unfolding new_machine message_for_mode status_line_for
new_machine-IsPublished now cfg = record {
  current = refl;
  off_normal = λ off. refl;
  notice = refl;
  status_line = refl;
  loop_only = refl;
  explained = λ away. absurd (away refl);
}

-- After any operations on a new machine, the published context agrees with the machine's mode and
-- configuration: its notice, status line and loop flag, and its reason whenever the mode is not normal.
pub apply_all-new_machine-IsPublished :
    (now : ℕ) (cfg : HealthStateConfig) (ops : List Op)
    → IsPublished (apply_all ops (new_machine now cfg))
apply_all-new_machine-IsPublished now cfg ops =
    apply_all-IsPublished ops (new_machine now cfg) (new_machine-IsPublished now cfg)

-- the mode that a listener of `on_change` believes in
abbrev pub last_told : Mode → List Mode → Mode
last_told previous [] = previous
last_told previous (m ∷ told) = last_told m told

same_mode-eq : (a b : Mode) → same_mode a b ≡ true → a ≡ b
unfolding same_mode
same_mode-eq a b h = ground arith

run_rounds-last_told :
    (rounds : List Round) (h : HealthStateMachine) (previous : Mode)
    → h.last_snapshot.mode ≡ previous
    → last_told previous (run_rounds rounds h previous).1
      ≡ (run_rounds rounds h previous).0.last_snapshot.mode
unfolding run_rounds round
run_rounds-last_told [] h previous e = sym e
run_rounds-last_told ((env, now) ∷ rest) h previous e =
    let h' = evaluate now (run_probes env h.probes h) in
    let ih = run_rounds-last_told rest h' h'.last_snapshot.mode refl in
    elim (Bool-cases (same_mode h'.last_snapshot.mode previous)) [
      | inl same ↦ simp same (cc (ih, same_mode-eq h'.last_snapshot.mode previous same))
      | inr other ↦ simp other ih
    ]

-- The last mode that `run_forever` reported, or the first published one, is the mode published at the
-- end of any rounds.
pub run_forever-last_told :
    (rounds : List Round) (h : HealthStateMachine)
    → last_told h.last_snapshot.mode (run_forever rounds h).1
      ≡ (run_forever rounds h).0.last_snapshot.mode
unfolding run_forever
run_forever-last_told rounds h = ground (arith, run_rounds-last_told rounds h h.last_snapshot.mode)
