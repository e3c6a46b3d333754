-- ===== src/Jobs/Tracked.antt =====
-- No job is lost: each future of a submitted job is done, or its job waits in the queue or is with the worker.
use mathlib.Core.Path.{subst}
use seasonal_weather.Prelude.{
  ℕ, ◌≡◌, refl, sym, arith, Bool, true, false, not, ◌||◌, List, [], ◌∷◌, ◌++◌, ltb, ◌==◌, Text, inl,
  inr, Bool-cases,
}
use seasonal_weather.Jobs.{
  QueuedAlertAudioJob, AlertAudioDispatcher, AlertAudioMode, Replies, Reply, value, raised, Future,
  pending, cancelled, result, exception, is_cancelled, is_done, Worker, idle, ended, escaped,
  escape, rendering, pushing, finish, resolve, set_future, take_job, take_min, rendered, pushed,
  check_stale, stale_before_render, stale_before_push, work, submit, start, cancel, full, voice,
  full_priority, voice_priority, render_and_push_full, render_and_push_voice,
}
use seasonal_weather.Jobs.Order.{
  Reply-cases, waits, take_min-waits, work_none, work_ended, work_take, work_rendering,
  work_pushing,
}

unfoldable pub in_hand : ℕ → Worker → Bool
in_hand n idle = false
in_hand n (ended j) = j.sequence == n
in_hand n (rendering j) = j.sequence == n
in_hand n (pushing j path) = j.sequence == n

unfoldable pub is_tracked : ℕ → AlertAudioDispatcher → Bool
is_tracked n d =
    not (ltb n d.next_sequence)
    || (is_done (d.futures n) || (waits n d.queue || in_hand n d.worker))

-- the same between two awaits, with a job that the worker has in its hands
is_held : ℕ → QueuedAlertAudioJob → AlertAudioDispatcher → Bool
is_held n j d =
    not (ltb n d.next_sequence) || (is_done (d.futures n) || (waits n d.queue || j.sequence == n))

cancelled_is_done : (f : Future) → is_cancelled f ≡ true → is_done f ≡ true
unfolding is_cancelled is_done
cancelled_is_done pending e = cc
cancelled_is_done cancelled e = refl
cancelled_is_done (result path) e = refl
cancelled_is_done (exception e') e = refl

own_done :
    (n : ℕ) (j : QueuedAlertAudioJob) (d : AlertAudioDispatcher)
    → is_cancelled (d.futures j.sequence) ≡ true
    → (j.sequence == n) ≡ true
    → is_done (d.futures n) ≡ true
own_done n j d gone own =
    subst (λ m. is_done (d.futures m) ≡ true) {x = j.sequence} {y = n} (ground (arith, own))
      (cancelled_is_done (d.futures j.sequence) gone)

finish_held :
    (n : ℕ) (j : QueuedAlertAudioJob) (f : Future) (d : AlertAudioDispatcher)
    → is_done f ≡ true
    → is_held n j d ≡ true
    → is_tracked n (finish j f d) ≡ true
unfolding finish resolve set_future is_held is_tracked in_hand
finish_held n j f d over held = elim (Bool-cases (is_cancelled (d.futures j.sequence))) [
  | inl gone ↦ elim (Bool-cases (j.sequence == n)) [
    | inl own ↦ rw gone (ground (arith, own_done n j d gone own))
    | inr other ↦ rw gone (ground (arith, held, other))
  ]
  | inr waiting ↦ rw waiting (ground (arith, over, held))
]

take_job_held :
    (n : ℕ) (j : QueuedAlertAudioJob) (r : Replies) (d : AlertAudioDispatcher)
    → is_held n j d ≡ true
    → is_tracked n (take_job j r d) ≡ true
unfolding take_job escape is_held is_tracked in_hand is_done
take_job_held n j r d held = elim (Bool-cases (is_cancelled (d.futures j.sequence))) [
  | inl gone ↦ elim (Bool-cases (j.sequence == n)) [
    | inl own ↦ rw gone (ground (arith, own_done n j d gone own))
    | inr other ↦ rw gone (ground (arith, held, other))
  ]
  | inr waiting ↦
      elim (Reply-cases
        (check_stale j.has_stale_check r.stale_at_render (stale_before_render j.mode j.source))) [
          | inl (u, fresh) ↦ rw (waiting, fresh) held
          | inr (inl (e, stale)) ↦ rw (waiting, stale) (finish_held n j (exception e) d refl held)
          | inr (inr out) ↦ rw (waiting, out) held
        ]
]

rendered_held :
    (n : ℕ) (j : QueuedAlertAudioJob) (r : Replies) (reply : Reply Text) (d : AlertAudioDispatcher)
    → is_held n j d ≡ true
    → is_tracked n (rendered j r reply d) ≡ true
unfolding rendered escape is_held is_tracked in_hand is_done
rendered_held n j r (raised e) d held = finish_held n j (exception e) d refl held
rendered_held n j r escaped d held = held
rendered_held n j r (value path) d held =
    elim (Reply-cases
      (check_stale j.has_stale_check r.stale_at_push (stale_before_push j.mode j.source))) [
        | inl (u, fresh) ↦ rw (fresh, rendered) held
        | inr (inl (e, stale)) ↦ rw (stale, rendered) (finish_held n j (exception e) d refl held)
        | inr (inr out) ↦ rw (out, rendered) held
      ]

pushed_held :
    (n : ℕ) (j : QueuedAlertAudioJob) (path : Text) (reply : Reply Unit) (d : AlertAudioDispatcher)
    → is_held n j d ≡ true
    → is_tracked n (pushed j path reply d) ≡ true
unfolding pushed escape is_held is_tracked in_hand is_done
pushed_held n j path (value u) d held = finish_held n j (result path) d refl held
pushed_held n j path (raised e) d held = finish_held n j (exception e) d refl held
pushed_held n j path escaped d held = held

pub work_tracked :
    (n : ℕ) (r : Replies) (d : AlertAudioDispatcher)
    → is_tracked n d ≡ true
    → is_tracked n (work r d) ≡ true
unfolding work is_tracked in_hand is_held
work_tracked n r d tracked = go d.worker refl
  where
    in_hands :
        (w : Worker)
        → d.worker ≡ w
        → (not (ltb n d.next_sequence)
            || (is_done (d.futures n) || (waits n d.queue || in_hand n w)))
          ≡ true
    in_hands w e =
        subst
          (λ v.
            (not (ltb n d.next_sequence)
              || (is_done (d.futures n) || (waits n d.queue || in_hand n v)))
            ≡ true)
          e tracked

    take :
        (jobs : List QueuedAlertAudioJob)
        → d.queue ≡ jobs
        → d.worker ≡ idle
        → is_tracked n (work r d) ≡ true
    take [] e rest = subst (λ s. is_tracked n s ≡ true) (sym (work_none r d rest e)) tracked
    take (k ∷ jobs) e rest =
        subst (λ s. is_tracked n s ≡ true) (sym (work_take r d k jobs rest e))
          (take_job_held n (take_min k jobs).0 r (record d { queue = (take_min k jobs).1 })
            (ground (
              arith,
              subst
                  (λ q.
                    (not (ltb n d.next_sequence)
                      || (is_done (d.futures n) || (waits n q || in_hand n idle)))
                    ≡ true)
                  e (in_hands idle rest),
              take_min-waits n k jobs,
            )))

    go : (w : Worker) → d.worker ≡ w → is_tracked n (work r d) ≡ true
    go idle rest = take d.queue refl rest
    go (ended j) at = subst (λ s. is_tracked n s ≡ true) (sym (work_ended r d j at)) tracked
    go (rendering j) at =
        subst (λ s. is_tracked n s ≡ true) (sym (work_rendering r d j at))
          (rendered_held n j r r.render d (in_hands (rendering j) at))
    go (pushing j path) at =
        subst (λ s. is_tracked n s ≡ true) (sym (work_pushing r d j path at))
          (pushed_held n j path r.push d (in_hands (pushing j path) at))

-- what happens to a dispatcher
pub data Act : Type 0 where
  starting : Act
  submitting_full : Text → Bool → Replies → Act
  submitting_voice : Text → Bool → Replies → Act
  cancelling : ℕ → Act
  working : Replies → Act

unfoldable pub act : Act → AlertAudioDispatcher → AlertAudioDispatcher
act starting d = start d
act (submitting_full source checked r) d = (render_and_push_full source checked r d).1
act (submitting_voice source checked r) d = (render_and_push_voice source checked r d).1
act (cancelling n) d = cancel n d
act (working r) d = work r d

unfoldable pub act_all : List Act → AlertAudioDispatcher → AlertAudioDispatcher
act_all [] d = d
act_all (a ∷ acts) d = act_all acts (act a d)

waits-append :
    (n : ℕ) (jobs : List QueuedAlertAudioJob) (j : QueuedAlertAudioJob)
    → waits n (jobs ++ j ∷ []) ≡ (waits n jobs || j.sequence == n)
unfolding waits
waits-append n [] j = ground arith
waits-append n (k ∷ jobs) j = ground (arith, waits-append n jobs j)

submit_tracked :
    (n priority : ℕ) (mode : AlertAudioMode) (source : Text) (checked : Bool) (r : Replies)
    (d : AlertAudioDispatcher)
    → is_tracked n d ≡ true
    → is_tracked n (submit priority mode source checked r d).1 ≡ true
unfolding submit is_tracked
submit_tracked n priority mode source checked r d tracked = elim (Bool-cases d.is_started) [
  | inl on ↦
      rw (on, submit)
        (ground (
          arith,
          tracked,
          waits-append n d.queue (record {
            priority = priority;
            sequence = d.next_sequence;
            mode = mode;
            source = source;
            has_stale_check = checked;
          }),
        ))
  | inr off ↦ rw (off, submit) tracked
]

cancel_tracked :
    (n m : ℕ) (d : AlertAudioDispatcher) → is_tracked n d ≡ true → is_tracked n (cancel m d) ≡ true
unfolding cancel set_future is_tracked is_done
cancel_tracked n m d tracked = elim (Bool-cases (is_done (d.futures m))) [
  | inl over ↦ rw (over, cancel) tracked
  | inr waiting ↦ rw (waiting, cancel) (ground (arith, tracked))
]

act_tracked :
    (n : ℕ) (a : Act) (d : AlertAudioDispatcher)
    → is_tracked n d ≡ true
    → is_tracked n (act a d) ≡ true
unfolding act start is_tracked render_and_push_full render_and_push_voice
act_tracked n starting d h = h
act_tracked n (submitting_full source checked r) d h =
    submit_tracked n full_priority full source checked r d h
act_tracked n (submitting_voice source checked r) d h =
    submit_tracked n voice_priority voice source checked r d h
act_tracked n (cancelling m) d h = cancel_tracked n m d h
act_tracked n (working r) d h = work_tracked n r d h

pub act_all_tracked :
    (n : ℕ) (acts : List Act) (d : AlertAudioDispatcher)
    → is_tracked n d ≡ true
    → is_tracked n (act_all acts d) ≡ true
unfolding act_all
act_all_tracked n [] d h = h
act_all_tracked n (a ∷ acts) d h = act_all_tracked n acts (act a d) (act_tracked n a d h)
