-- ===== src/Jobs/Turns.antt =====
-- Whose turn it is: full alerts before voice alerts, and each in the order of submission.
use seasonal_weather.Prelude.{
  ℕ, ◌≡◌, refl, arith, Bool, true, false, ltb, List, [], ◌∷◌, ◌++◌, All, Text, inl, inr, Bool-cases,
  sym,
}
use mathlib.Core.Path.{subst}
use seasonal_weather.Jobs.{
  AlertAudioMode, full, voice, QueuedAlertAudioJob, AlertAudioDispatcher, Replies, Reply, Future,
  Worker, idle, ended, rendering, pushing, precedes, new_dispatcher, work, submit, cancel,
  set_future, start, is_done, render_and_push_full, render_and_push_voice, take_min, rendered,
  pushed, finish, escape, value, raised, escaped, result, exception, check_stale, stale_before_push,
  take_job,
}
use seasonal_weather.Jobs.Order.{
  IsFirst, work-IsFirst, Reply-cases, finish-queue, work_none, work_ended, work_take,
  work_rendering, work_pushing, take_job-worker,
}
use seasonal_weather.Jobs.Tracked.{
  Act, starting, submitting_full, submitting_voice, cancelling, working, act, act_all,
}

-- a full alert goes before a voice alert, and of one kind the one that was submitted earlier
unfoldable pub goes_before : AlertAudioMode → ℕ → AlertAudioMode → ℕ → Bool
goes_before full m full n = ltb m n
goes_before full m voice n = true
goes_before voice m full n = false
goes_before voice m voice n = ltb m n

-- the priority with which a job of the mode is submitted
priority_of : AlertAudioMode → ℕ
priority_of full = 0
priority_of voice = 10

Ranked : QueuedAlertAudioJob → Type 0
Ranked j = j.priority ≡ priority_of j.mode

-- the job that the worker begins
RankedWorker : Worker → Type 0
RankedWorker idle = Unit
RankedWorker (ended j) = Unit
RankedWorker (rendering j) = Ranked j
RankedWorker (pushing j path) = Unit

IsRanked : AlertAudioDispatcher → Type 0
IsRanked d = All Ranked d.queue × RankedWorker d.worker

take_min-Ranked :
    (j : QueuedAlertAudioJob) (jobs : List QueuedAlertAudioJob)
    → Ranked j
    → All Ranked jobs
    → Ranked (take_min j jobs).0 × All Ranked (take_min j jobs).1
unfolding take_min
take_min-Ranked j [] own h = (own, tt)
take_min-Ranked j (k ∷ jobs) own (next, h) =
    let (least, rest) = take_min-Ranked k jobs next h in
    elim (Bool-cases (precedes (take_min k jobs).0 j)) [
      | inl before ↦ rw before (least, (own, rest))
      | inr after ↦ rw after (own, (least, rest))
    ]

append-Ranked :
    (jobs : List QueuedAlertAudioJob) (j : QueuedAlertAudioJob)
    → All Ranked jobs
    → Ranked j
    → All Ranked (jobs ++ j ∷ [])
append-Ranked [] j h own = (own, tt)
append-Ranked (k ∷ jobs) j (next, h) own = (next, append-Ranked jobs j h own)

finish-IsRanked :
    (j : QueuedAlertAudioJob) (f : Future) (d : AlertAudioDispatcher)
    → All Ranked d.queue
    → IsRanked (finish j f d)
unfolding IsRanked RankedWorker
finish-IsRanked j f d h = rw ((finish-queue j f d).0, (finish-queue j f d).1) (h, tt)

rendered-IsRanked :
    (j : QueuedAlertAudioJob) (r : Replies) (reply : Reply Text) (d : AlertAudioDispatcher)
    → All Ranked d.queue
    → IsRanked (rendered j r reply d)
unfolding rendered escape IsRanked RankedWorker
rendered-IsRanked j r (raised e) d h = finish-IsRanked j (exception e) d h
rendered-IsRanked j r escaped d h = (h, tt)
rendered-IsRanked j r (value path) d h =
    elim (Reply-cases
      (check_stale j.has_stale_check r.stale_at_push (stale_before_push j.mode j.source))) [
        | inl (u, fresh) ↦ rw (fresh, rendered) (h, tt)
        | inr (inl (e, stale)) ↦ rw (stale, rendered) (finish-IsRanked j (exception e) d h)
        | inr (inr out) ↦ rw (out, rendered) (h, tt)
      ]

pushed-IsRanked :
    (j : QueuedAlertAudioJob) (path : Text) (reply : Reply Unit) (d : AlertAudioDispatcher)
    → All Ranked d.queue
    → IsRanked (pushed j path reply d)
unfolding pushed escape IsRanked RankedWorker
pushed-IsRanked j path (value u) d h = finish-IsRanked j (result path) d h
pushed-IsRanked j path (raised e) d h = finish-IsRanked j (exception e) d h
pushed-IsRanked j path escaped d h = (h, tt)

take_job-IsRanked :
    (j : QueuedAlertAudioJob) (r : Replies) (d : AlertAudioDispatcher)
    → d.worker ≡ idle
    → All Ranked d.queue
    → Ranked j
    → IsRanked (take_job j r d)
unfolding IsRanked RankedWorker
take_job-IsRanked j r d rest h own = elim (take_job-worker j r d rest).1 [
  | inl free ↦ rw ((take_job-worker j r d rest).0, free) (h, tt)
  | inr (inl out) ↦ rw ((take_job-worker j r d rest).0, out) (h, tt)
  | inr (inr busy) ↦ rw ((take_job-worker j r d rest).0, busy) (h, own)
]

work-IsRanked : (r : Replies) (d : AlertAudioDispatcher) → IsRanked d → IsRanked (work r d)
unfolding IsRanked
work-IsRanked r d (h, own) = go d.worker refl
  where
    take :
        (jobs : List QueuedAlertAudioJob)
        → d.queue ≡ jobs
        → All Ranked jobs
        → d.worker ≡ idle
        → IsRanked (work r d)
    take [] e all rest = subst IsRanked (sym (work_none r d rest e)) (h, own)
    take (k ∷ jobs) e (first, all) rest = subst IsRanked (sym (work_take r d k jobs rest e)) (
        take_job-IsRanked (take_min k jobs).0 r (record d { queue = (take_min k jobs).1 }) rest
          (take_min-Ranked k jobs first all).1 (take_min-Ranked k jobs first all).0)

    go : (w : Worker) → d.worker ≡ w → IsRanked (work r d)
    go idle rest = take d.queue refl h rest
    go (ended j) at = subst IsRanked (sym (work_ended r d j at)) (h, own)
    go (rendering j) at =
        subst IsRanked (sym (work_rendering r d j at)) (rendered-IsRanked j r r.render d h)
    go (pushing j path) at =
        subst IsRanked (sym (work_pushing r d j path at)) (pushed-IsRanked j path r.push d h)

submit-IsRanked :
    (mode : AlertAudioMode) (source : Text) (checked : Bool) (r : Replies)
    (d : AlertAudioDispatcher)
    → IsRanked d
    → IsRanked (submit (priority_of mode) mode source checked r d).1
unfolding submit IsRanked Ranked
submit-IsRanked mode source checked r d (h, own) = elim (Bool-cases d.is_started) [
  | inl on ↦ rw (on, submit) (append-Ranked d.queue _ h refl, own)
  | inr off ↦ rw (off, submit) (h, own)
]

cancel-IsRanked : (n : ℕ) (d : AlertAudioDispatcher) → IsRanked d → IsRanked (cancel n d)
unfolding cancel set_future IsRanked
cancel-IsRanked n d (h, own) = elim (Bool-cases (is_done (d.futures n))) [
  | inl over ↦ rw (over, cancel) (h, own)
  | inr waiting ↦ rw (waiting, cancel) (h, own)
]

act-IsRanked : (a : Act) (d : AlertAudioDispatcher) → IsRanked d → IsRanked (act a d)
unfolding act start render_and_push_full render_and_push_voice priority_of IsRanked
act-IsRanked starting d h = h
act-IsRanked (submitting_full source checked r) d h = submit-IsRanked full source checked r d h
act-IsRanked (submitting_voice source checked r) d h = submit-IsRanked voice source checked r d h
act-IsRanked (cancelling n) d h = cancel-IsRanked n d h
act-IsRanked (working r) d h = work-IsRanked r d h

act_all-IsRanked :
    (acts : List Act) (d : AlertAudioDispatcher) → IsRanked d → IsRanked (act_all acts d)
unfolding act_all
act_all-IsRanked [] d h = h
act_all-IsRanked (a ∷ acts) d h = act_all-IsRanked acts (act a d) (act-IsRanked a d h)

-- among ranked jobs the order of the queue is that of the modes
not_before :
    (j k : QueuedAlertAudioJob)
    → Ranked j
    → Ranked k
    → precedes k j ≡ false
    → goes_before k.mode k.sequence j.mode j.sequence ≡ false
unfolding precedes Ranked priority_of goes_before
not_before j k own other h = go k.mode j.mode own other
  where
    go :
        (m n : AlertAudioMode)
        → j.priority ≡ priority_of n
        → k.priority ≡ priority_of m
        → goes_before m k.sequence n j.sequence ≡ false
    go full full e f = ground (arith, h, e, f)
    go full voice e f = ground (arith, h, e, f)
    go voice full e f = refl
    go voice voice e f = ground (arith, h, e, f)

none_before :
    (j : QueuedAlertAudioJob) (jobs : List QueuedAlertAudioJob)
    → Ranked j
    → All Ranked jobs
    → IsFirst j jobs
    → All (λ k. goes_before k.mode k.sequence j.mode j.sequence ≡ false) jobs
unfolding IsFirst
none_before j [] own h f = tt
none_before j (k ∷ jobs) own (other, h) (n, f) =
    (not_before j k own other n, none_before j jobs own h f)

-- After any submissions of full and voice alerts, cancellations and steps of the worker: when the idle worker
-- begins to render a job, no full alert is left waiting behind a voice alert, and of the alerts of the same kind
-- none is left that was submitted earlier.
pub work-goes_before :
    (acts : List Act) (r : Replies) (j : QueuedAlertAudioJob)
    → (act_all acts new_dispatcher).worker ≡ idle
    → (work r (act_all acts new_dispatcher)).worker ≡ rendering j
    → All
        (λ k. goes_before k.mode k.sequence j.mode j.sequence ≡ false)
        (work r (act_all acts new_dispatcher)).queue
unfolding new_dispatcher IsRanked RankedWorker
work-goes_before acts r j rest begun =
    let (queued, own) =
      work-IsRanked r (act_all acts new_dispatcher)
        (act_all-IsRanked acts new_dispatcher (tt, tt)) in
    none_before j (work r (act_all acts new_dispatcher)).queue (subst RankedWorker begun own) queued
      (work-IsFirst r (act_all acts new_dispatcher) j rest begun)
