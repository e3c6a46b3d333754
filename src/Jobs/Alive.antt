-- ===== src/Jobs/Alive.antt =====
-- A worker whose callbacks raise nothing but `Exception`s stays alive.
use mathlib.Core.Path.{subst}
use seasonal_weather.Prelude.{
  ℕ, ◌≡◌, refl, sym, ◌∙◌, ap, arith, Bool, true, false, ◌&&◌, List, [], ◌∷◌, All, Text, inl, inr,
  Bool-cases,
}
use seasonal_weather.Jobs.{
  AlertAudioMode, full, voice, JobError, QueuedAlertAudioJob, AlertAudioDispatcher, Replies, Reply,
  value, raised, escaped, escape, Future, result, exception, is_done, is_cancelled, Worker, idle,
  ended, rendering, pushing, finish, take_job, take_min, rendered, pushed, check_stale,
  stale_before_push, stale_before_render, work, submit, cancel, set_future, start,
  render_and_push_full, render_and_push_voice, full_priority, voice_priority,
}
use seasonal_weather.Jobs.Order.{
  Reply-cases, finish-queue, work_none, work_ended, work_take, work_rendering, work_pushing,
}
use seasonal_weather.Jobs.Tracked.{
  Act, starting, submitting_full, submitting_voice, cancelling, working, act, act_all,
}

-- no escaped exception has ended the worker
unfoldable pub is_alive : Worker → Bool
is_alive idle = true
is_alive (ended j) = false
is_alive (rendering j) = true
is_alive (pushing j path) = true

-- all that the callbacks raise is an `Exception`
unfoldable pub catches : {A : Type 0} → Reply A → Bool
catches (value a) = true
catches (raised e) = true
catches escaped = false

unfoldable pub is_caught : Replies → Bool
is_caught r =
    catches r.stale_at_render && catches r.render && catches r.stale_at_push && catches r.push

unfoldable pub is_caught_act : Act → Bool
is_caught_act starting = true
is_caught_act (submitting_full source checked r) = true
is_caught_act (submitting_voice source checked r) = true
is_caught_act (cancelling n) = true
is_caught_act (working r) = is_caught r

catches-check_stale :
    (checked : Bool) (reply : Reply Bool) (e : JobError)
    → catches reply ≡ true
    → catches (check_stale checked reply e) ≡ true
unfolding check_stale catches
catches-check_stale false reply e c = refl
catches-check_stale true (value true) e c = refl
catches-check_stale true (value false) e c = refl
catches-check_stale true (raised error) e c = refl
catches-check_stale true escaped e c = c

finish_alive :
    (j : QueuedAlertAudioJob) (f : Future) (d : AlertAudioDispatcher)
    → is_alive (finish j f d).worker ≡ true
unfolding is_alive
finish_alive j f d = rw ((finish-queue j f d).1) refl

take_job_alive :
    (j : QueuedAlertAudioJob) (r : Replies) (d : AlertAudioDispatcher)
    → is_caught r ≡ true
    → is_alive d.worker ≡ true
    → is_alive (take_job j r d).worker ≡ true
unfolding take_job is_alive is_caught catches
take_job_alive j r d caught alive =
    elim (Reply-cases
      (check_stale j.has_stale_check r.stale_at_render (stale_before_render j.mode j.source))) [
        | inl (u, fresh) ↦ elim (Bool-cases (is_cancelled (d.futures j.sequence))) [
          | inl gone ↦ rw (gone, take_job) alive
          | inr waiting ↦ rw (waiting, fresh, take_job) refl
        ]
        | inr (inl (e, stale)) ↦ elim (Bool-cases (is_cancelled (d.futures j.sequence))) [
          | inl gone ↦ rw (gone, take_job) alive
          | inr waiting ↦ rw (waiting, stale, take_job) (finish_alive j (exception e) d)
        ]
        | inr (inr out) ↦ ground (
          arith,
          ap catches out,
          catches-check_stale j.has_stale_check r.stale_at_render
              (stale_before_render j.mode j.source),
          caught,
        )
      ]

rendered_alive :
    (j : QueuedAlertAudioJob) (r : Replies) (reply : Reply Text) (d : AlertAudioDispatcher)
    → is_caught r ≡ true
    → catches reply ≡ true
    → is_alive (rendered j r reply d).worker ≡ true
unfolding rendered escape is_alive is_caught catches
rendered_alive j r (raised e) d caught c = finish_alive j (exception e) d
rendered_alive j r escaped d caught c = c
rendered_alive j r (value path) d caught c =
    elim (Reply-cases
      (check_stale j.has_stale_check r.stale_at_push (stale_before_push j.mode j.source))) [
        | inl (u, fresh) ↦ rw (fresh, rendered) refl
        | inr (inl (e, stale)) ↦ rw (stale, rendered) (finish_alive j (exception e) d)
        | inr (inr out) ↦ ground (
          arith,
          ap catches out,
          catches-check_stale j.has_stale_check r.stale_at_push (stale_before_push j.mode j.source),
          caught,
        )
      ]

pushed_alive :
    (j : QueuedAlertAudioJob) (path : Text) (reply : Reply Unit) (d : AlertAudioDispatcher)
    → catches reply ≡ true
    → is_alive (pushed j path reply d).worker ≡ true
unfolding pushed escape is_alive catches
pushed_alive j path (value u) d c = finish_alive j (result path) d
pushed_alive j path (raised e) d c = finish_alive j (exception e) d
pushed_alive j path escaped d c = c

pub work_alive :
    (r : Replies) (d : AlertAudioDispatcher)
    → is_caught r ≡ true
    → is_alive d.worker ≡ true
    → is_alive (work r d).worker ≡ true
unfolding is_alive is_caught catches
work_alive r d caught alive = go d.worker refl
  where
    stays :
        (s : AlertAudioDispatcher)
        → work r d ≡ s
        → is_alive s.worker ≡ true
        → is_alive (work r d).worker ≡ true
    stays s e h = subst (λ (t : AlertAudioDispatcher). is_alive t.worker ≡ true) (sym e) h

    take :
        (jobs : List QueuedAlertAudioJob)
        → d.queue ≡ jobs
        → d.worker ≡ idle
        → is_alive (work r d).worker ≡ true
    take [] e rest = stays d (work_none r d rest e) alive
    take (k ∷ jobs) e rest = stays _ (work_take r d k jobs rest e) (
        take_job_alive (take_min k jobs).0 r (record d { queue = (take_min k jobs).1 }) caught
          alive)

    go : (w : Worker) → d.worker ≡ w → is_alive (work r d).worker ≡ true
    go idle rest = take d.queue refl rest
    go (ended j) at = stays d (work_ended r d j at) alive
    go (rendering j) at =
        stays _ (work_rendering r d j at)
          (rendered_alive j r r.render d caught (ground (arith, caught)))
    go (pushing j path) at =
        stays _ (work_pushing r d j path at) (pushed_alive j path r.push d (ground (arith, caught)))

submit_worker :
    (priority : ℕ) (mode : AlertAudioMode) (source : Text) (checked : Bool) (r : Replies)
    (d : AlertAudioDispatcher)
    → (submit priority mode source checked r d).1.worker ≡ d.worker
unfolding submit
submit_worker priority mode source checked r d = elim (Bool-cases d.is_started) [
  | inl on ↦ rw (on, submit) refl
  | inr off ↦ rw (off, submit) refl
]

cancel_worker : (n : ℕ) (d : AlertAudioDispatcher) → (cancel n d).worker ≡ d.worker
unfolding cancel set_future
cancel_worker n d = elim (Bool-cases (is_done (d.futures n))) [
  | inl over ↦ rw (over, cancel) refl
  | inr waiting ↦ rw (waiting, cancel) refl
]

act_alive :
    (a : Act) (d : AlertAudioDispatcher)
    → is_caught_act a ≡ true
    → is_alive d.worker ≡ true
    → is_alive (act a d).worker ≡ true
unfolding act is_caught_act start render_and_push_full render_and_push_voice
act_alive starting d c alive = alive
act_alive (submitting_full source checked r) d c alive =
    ap is_alive (submit_worker full_priority full source checked r d) ∙ alive
act_alive (submitting_voice source checked r) d c alive =
    ap is_alive (submit_worker voice_priority voice source checked r d) ∙ alive
act_alive (cancelling n) d c alive = ap is_alive (cancel_worker n d) ∙ alive
act_alive (working r) d c alive = work_alive r d c alive

pub act_all_alive :
    (acts : List Act) (d : AlertAudioDispatcher)
    → All (λ a. is_caught_act a ≡ true) acts
    → is_alive d.worker ≡ true
    → is_alive (act_all acts d).worker ≡ true
unfolding act_all
act_all_alive [] d c alive = alive
act_all_alive (a ∷ acts) d (caught, c) alive =
    act_all_alive acts (act a d) c (act_alive a d caught alive)
