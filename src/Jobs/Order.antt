-- ===== src/Jobs/Order.antt =====
-- The order in which the worker takes jobs.
use mathlib.Core.Path.{subst}
use seasonal_weather.Prelude.{
  ℕ, ◌≡◌, refl, sym, ◌∙◌, ap, arith, Bool, true, false, ◌||◌, some, List, [], ◌∷◌, ◌==◌, length,
  any, ◌⊎◌, All, Text, inl, inr, Bool-cases,
}
use seasonal_weather.Jobs.{
  QueuedAlertAudioJob, precedes, take_min, pop_min, AlertAudioDispatcher, Replies, Future,
  exception, is_cancelled, idle, ended, Reply, value, raised, escaped, JobError, escape, rendering,
  pushing, finish, resolve, set_future, take_job, rendered, pushed, check_stale,
  stale_before_render, work,
}

some_inj : {A : Type 0} {x y : A} → some x ≡ some y → x ≡ y
some_inj e = cc

-- no job of a list comes before this one
unfoldable pub IsFirst : QueuedAlertAudioJob → List QueuedAlertAudioJob → Type 0
IsFirst j jobs = All (λ k. precedes k j ≡ false) jobs

precedes_chain :
    (i j k : QueuedAlertAudioJob)
    → precedes j i ≡ false
    → precedes k j ≡ false
    → precedes k i ≡ false
unfolding precedes
precedes_chain i j k h n = ground (arith, h, n)

precedes_asym : (j k : QueuedAlertAudioJob) → precedes j k ≡ true → precedes k j ≡ false
unfolding precedes
precedes_asym j k h = ground (arith, h)

IsFirst-chain :
    (i j : QueuedAlertAudioJob) (jobs : List QueuedAlertAudioJob)
    → precedes j i ≡ false
    → IsFirst j jobs
    → IsFirst i jobs
unfolding IsFirst
IsFirst-chain i j [] h f = tt
IsFirst-chain i j (k ∷ jobs) h (n, f) = (precedes_chain i j k h n, IsFirst-chain i j jobs h f)

pub take_min-IsFirst :
    (j : QueuedAlertAudioJob) (jobs : List QueuedAlertAudioJob)
    → IsFirst (take_min j jobs).0 (take_min j jobs).1
unfolding take_min IsFirst
take_min-IsFirst j [] = tt
take_min-IsFirst j (k ∷ jobs) = elim (Bool-cases (precedes (take_min k jobs).0 j)) [
  | inl before ↦ rw before (precedes_asym (take_min k jobs).0 j before, take_min-IsFirst k jobs)
  | inr after ↦ rw after (
    after,
    IsFirst-chain j (take_min k jobs).0 (take_min k jobs).1 after (take_min-IsFirst k jobs),
  )
]

pub pop_min-IsFirst :
    (jobs rest : List QueuedAlertAudioJob) (j : QueuedAlertAudioJob)
    → pop_min jobs ≡ some (j, rest)
    → IsFirst j rest
unfolding pop_min
pop_min-IsFirst [] rest j e = cc
pop_min-IsFirst (k ∷ jobs) rest j e =
    subst (λ (o : QueuedAlertAudioJob × List QueuedAlertAudioJob). IsFirst o.0 o.1) (some_inj e)
      (take_min-IsFirst k jobs)

-- every job of the queue is still there, or is the one that is given out
unfoldable pub waits : ℕ → List QueuedAlertAudioJob → Bool
waits n jobs = any (λ k. k.sequence == n) jobs

pub take_min-waits :
    (n : ℕ) (j : QueuedAlertAudioJob) (jobs : List QueuedAlertAudioJob)
    → waits n (j ∷ jobs) ≡ ((take_min j jobs).0.sequence == n || waits n (take_min j jobs).1)
unfolding take_min waits
take_min-waits n j [] = refl
take_min-waits n j (k ∷ jobs) = elim (Bool-cases (precedes (take_min k jobs).0 j)) [
  | inl before ↦ rw before (ground (arith, take_min-waits n k jobs))
  | inr after ↦ rw after (ground (arith, take_min-waits n k jobs))
]

pub length-take_min :
    (j : QueuedAlertAudioJob) (jobs : List QueuedAlertAudioJob)
    → length (take_min j jobs).1 ≡ length jobs
unfolding take_min
length-take_min j [] = refl
length-take_min j (k ∷ jobs) = ground (arith, length-take_min k jobs)

pub finish-queue :
    (j : QueuedAlertAudioJob) (f : Future) (d : AlertAudioDispatcher)
    → ((finish j f d).queue ≡ d.queue) × ((finish j f d).worker ≡ idle)
unfolding finish resolve set_future
finish-queue j f d = elim (Bool-cases (is_cancelled (d.futures j.sequence))) [
  | inl gone ↦ rw (gone, finish, resolve) (refl, refl)
  | inr waiting ↦ rw (waiting, finish, resolve) (refl, refl)
]

pub Reply-cases :
    {A : Type 0} (x : Reply A)
    → ((a : A) × (x ≡ value a)) ⊎ (((e : JobError) × (x ≡ raised e)) ⊎ (x ≡ escaped))
Reply-cases (value a) = inl (a, refl)
Reply-cases (raised e) = inr (inl (e, refl))
Reply-cases escaped = inr (inr refl)

-- where the worker stands when it has taken a job
pub take_job-worker :
    (j : QueuedAlertAudioJob) (r : Replies) (d : AlertAudioDispatcher)
    → d.worker ≡ idle
    → ((take_job j r d).queue ≡ d.queue)
      × (((take_job j r d).worker ≡ idle)
          ⊎ (((take_job j r d).worker ≡ ended j) ⊎ ((take_job j r d).worker ≡ rendering j)))
unfolding take_job escape
take_job-worker j r d rest = elim (Bool-cases (is_cancelled (d.futures j.sequence))) [
  | inl gone ↦ rw (gone, take_job) (refl, inl rest)
  | inr waiting ↦
      elim (Reply-cases
        (check_stale j.has_stale_check r.stale_at_render (stale_before_render j.mode j.source))) [
          | inl (u, fresh) ↦ rw (waiting, take_job, fresh) (refl, inr (inr refl))
          | inr (inl (e, stale)) ↦
              rw (waiting, take_job, stale)
                ((finish-queue j (exception e) d).0, inl (finish-queue j (exception e) d).1)
          | inr (inr gone) ↦ rw (waiting, take_job, gone) (refl, inr (inl refl))
        ]
]

worker_inj : {j k : QueuedAlertAudioJob} → rendering j ≡ rendering k → j ≡ k
worker_inj e = cc

idle_not_rendering : {k : QueuedAlertAudioJob} → ¬ (idle ≡ rendering k)
idle_not_rendering e = cc

ended_not_rendering : {j k : QueuedAlertAudioJob} → ¬ (ended j ≡ rendering k)
ended_not_rendering e = cc

-- a step of a worker that is idle
pub work_none :
    (r : Replies) (d : AlertAudioDispatcher) → d.worker ≡ idle → d.queue ≡ [] → work r d ≡ d
unfolding work pop_min
work_none r d rest e = simp (rest, e, work, pop_min) refl

pub work_ended :
    (r : Replies) (d : AlertAudioDispatcher) (j : QueuedAlertAudioJob)
    → d.worker ≡ ended j
    → work r d ≡ d
unfolding work
work_ended r d j at = simp (at, work) refl

pub work_rendering :
    (r : Replies) (d : AlertAudioDispatcher) (j : QueuedAlertAudioJob)
    → d.worker ≡ rendering j
    → work r d ≡ rendered j r r.render d
unfolding work
work_rendering r d j at = simp (at, work) refl

pub work_pushing :
    (r : Replies) (d : AlertAudioDispatcher) (j : QueuedAlertAudioJob) (path : Text)
    → d.worker ≡ pushing j path
    → work r d ≡ pushed j path r.push d
unfolding work
work_pushing r d j path at = simp (at, work) refl

pub work_take :
    (r : Replies) (d : AlertAudioDispatcher) (k : QueuedAlertAudioJob)
    (jobs : List QueuedAlertAudioJob)
    → d.worker ≡ idle
    → d.queue ≡ k ∷ jobs
    → work r d ≡ take_job (take_min k jobs).0 r (record d { queue = (take_min k jobs).1 })
unfolding work pop_min
work_take r d k jobs rest e = simp (rest, e, work, pop_min) refl

-- the job that the worker begins comes first in the order of the queue
pub work-IsFirst :
    (r : Replies) (d : AlertAudioDispatcher) (j : QueuedAlertAudioJob)
    → d.worker ≡ idle
    → (work r d).worker ≡ rendering j
    → IsFirst j (work r d).queue
work-IsFirst r d j rest begun = go d.queue refl
  where
    taken :
        (k : QueuedAlertAudioJob) (jobs : List QueuedAlertAudioJob)
        → work r d ≡ take_job (take_min k jobs).0 r (record d { queue = (take_min k jobs).1 })
        → ((take_job (take_min k jobs).0 r (record d { queue = (take_min k jobs).1 })).queue
            ≡ (take_min k jobs).1)
          × (((take_job (take_min k jobs).0 r (record d { queue = (take_min k jobs).1 })).worker
                ≡ idle)
              ⊎ (((take_job (take_min k jobs).0 r (record d { queue = (take_min k jobs).1 })).worker
                    ≡ ended (take_min k jobs).0)
                  ⊎ ((take_job
                        (take_min k jobs).0
                        r
                        (record d { queue = (take_min k jobs).1 })).worker
                      ≡ rendering (take_min k jobs).0)))
        → IsFirst j (work r d).queue
    taken k jobs e (kept, inl none_begun) = absurd (
        idle_not_rendering
          (sym none_begun ∙ (sym (ap (λ (s : AlertAudioDispatcher). s.worker) e) ∙ begun)))
    taken k jobs e (kept, inr (inl none_begun)) = absurd (
        ended_not_rendering
          (sym none_begun ∙ (sym (ap (λ (s : AlertAudioDispatcher). s.worker) e) ∙ begun)))
    taken k jobs e (kept, inr (inr one_begun)) =
        subst (IsFirst j) (sym (ap (λ (s : AlertAudioDispatcher). s.queue) e ∙ kept)) (
          subst (λ i. IsFirst i (take_min k jobs).1)
            (worker_inj
              (sym one_begun ∙ (sym (ap (λ (s : AlertAudioDispatcher). s.worker) e) ∙ begun)))
            (take_min-IsFirst k jobs))

    go : (jobs : List QueuedAlertAudioJob) → d.queue ≡ jobs → IsFirst j (work r d).queue
    go [] e = absurd (
        idle_not_rendering (
          sym rest
          ∙ (sym (ap (λ (s : AlertAudioDispatcher). s.worker) (work_none r d rest e)) ∙ begun)))
    go (k ∷ jobs) e =
        taken k jobs (work_take r d k jobs rest e)
          (take_job-worker (take_min k jobs).0 r (record d { queue = (take_min k jobs).1 }) rest)
