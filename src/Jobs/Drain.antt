-- ===== src/Jobs/Drain.antt =====
-- When callers get an answer: the steps of the worker that finish a future.
use seasonal_weather.Prelude.{
  ◌-◌, ℕ, ◌+◌, ◌*◌, ◌≤◌, ◌<◌, ◌≡◌, refl, ap, arith, All, true, List, [], ◌∷◌, length, Text, inl,
  inr,
}
use seasonal_weather.Jobs.{
  QueuedAlertAudioJob, AlertAudioDispatcher, Replies, Reply, value, raised, Future, result,
  exception, is_done, Worker, idle, ended, escaped, escape, rendering, pushing, finish, take_job,
  take_min, rendered, pushed, check_stale, stale_before_push, work, work_all, new_dispatcher,
}
use seasonal_weather.Jobs.Order.{
  Reply-cases, waits, finish-queue, take_job-worker, length-take_min, work_none, work_take,
  work_rendering, work_pushing,
}
use seasonal_weather.Jobs.Alive.{is_alive, is_caught, is_caught_act, work_alive, act_all_alive}
use seasonal_weather.Jobs.Tracked.{is_tracked, in_hand, work_tracked, Act, act_all, act_all_tracked}

-- awaits that the worker has before it
unfoldable pub steps_of : Worker → ℕ
steps_of idle = 0
steps_of (ended j) = 0
steps_of (rendering j) = 2
steps_of (pushing j path) = 1

unfoldable pub remaining : AlertAudioDispatcher → ℕ
remaining d = 3 * length d.queue + steps_of d.worker

remaining-finish :
    (j : QueuedAlertAudioJob) (f : Future) (d : AlertAudioDispatcher)
    → remaining (finish j f d) ≡ 3 * length d.queue
unfolding remaining steps_of
remaining-finish j f d = rw ((finish-queue j f d).0, (finish-queue j f d).1) (omega arith)

remaining-rendered :
    (j : QueuedAlertAudioJob) (r : Replies) (reply : Reply Text) (d : AlertAudioDispatcher)
    → remaining (rendered j r reply d) ≤ 3 * length d.queue + 1
unfolding rendered escape remaining steps_of
remaining-rendered j r (raised e) d = omega (arith, remaining-finish j (exception e) d)
remaining-rendered j r escaped d = omega arith
remaining-rendered j r (value path) d =
    elim (Reply-cases
      (check_stale j.has_stale_check r.stale_at_push (stale_before_push j.mode j.source))) [
        | inl (u, fresh) ↦ rw (fresh, rendered) (omega arith)
        | inr (inl (e, stale)) ↦
            rw (stale, rendered) (omega (arith, remaining-finish j (exception e) d))
        | inr (inr out) ↦ rw (out, rendered) (omega arith)
      ]

remaining-pushed :
    (j : QueuedAlertAudioJob) (path : Text) (reply : Reply Unit) (d : AlertAudioDispatcher)
    → remaining (pushed j path reply d) ≡ 3 * length d.queue
unfolding pushed escape remaining steps_of
remaining-pushed j path (value u) d = remaining-finish j (result path) d
remaining-pushed j path (raised e) d = remaining-finish j (exception e) d
remaining-pushed j path escaped d = omega arith

remaining-take_job :
    (j : QueuedAlertAudioJob) (r : Replies) (d : AlertAudioDispatcher)
    → d.worker ≡ idle
    → remaining (take_job j r d) ≤ 3 * length d.queue + 2
unfolding remaining steps_of
remaining-take_job j r d rest = elim (take_job-worker j r d rest).1 [
  | inl free ↦ rw ((take_job-worker j r d rest).0, free) (omega arith)
  | inr (inl out) ↦ rw ((take_job-worker j r d rest).0, out) (omega arith)
  | inr (inr busy) ↦ rw ((take_job-worker j r d rest).0, busy) (omega arith)
]

-- each step of the worker brings it nearer to the end of its work
work_step :
    (r : Replies) (d : AlertAudioDispatcher)
    → is_alive d.worker ≡ true
    → remaining (work r d) ≤ remaining d - 1
unfolding remaining steps_of is_alive
work_step r d alive = go d.worker refl
  where
    take :
        (jobs : List QueuedAlertAudioJob)
        → d.queue ≡ jobs
        → d.worker ≡ idle
        → remaining (work r d) ≤ remaining d - 1
    take [] e rest =
        omega (arith, ap remaining (work_none r d rest e), ap length e, ap steps_of rest)
    take (k ∷ jobs) e rest = omega (
      arith,
      ap length e,
      ap steps_of rest,
      ap remaining (work_take r d k jobs rest e),
      remaining-take_job (take_min k jobs).0 r (record d { queue = (take_min k jobs).1 }) rest,
      length-take_min k jobs,
    )

    go : (w : Worker) → d.worker ≡ w → remaining (work r d) ≤ remaining d - 1
    go idle rest = take d.queue refl rest
    go (ended j) at = ground (arith, alive, ap is_alive at)
    go (rendering j) at = omega (
      arith,
      ap steps_of at,
      ap remaining (work_rendering r d j at),
      remaining-rendered j r r.render d,
    )
    go (pushing j path) at = omega (
      arith,
      ap steps_of at,
      ap remaining (work_pushing r d j path at),
      remaining-pushed j path r.push d,
    )

work_all-remaining :
    (replies : List Replies) (d : AlertAudioDispatcher)
    → All (λ r. is_caught r ≡ true) replies
    → is_alive d.worker ≡ true
    → remaining d ≤ length replies
    → remaining (work_all replies d) ≡ 0
unfolding work_all
work_all-remaining [] d c alive h = omega arith
work_all-remaining (r ∷ replies) d (caught, c) alive h =
    work_all-remaining replies (work r d) c (work_alive r d caught alive)
      (omega (arith, work_step r d alive))

work_all_tracked :
    (n : ℕ) (replies : List Replies) (d : AlertAudioDispatcher)
    → is_tracked n d ≡ true
    → is_tracked n (work_all replies d) ≡ true
unfolding work_all
work_all_tracked n [] d h = h
work_all_tracked n (r ∷ replies) d h = work_all_tracked n replies (work r d) (work_tracked n r d h)

work_all_alive :
    (replies : List Replies) (d : AlertAudioDispatcher)
    → All (λ r. is_caught r ≡ true) replies
    → is_alive d.worker ≡ true
    → is_alive (work_all replies d).worker ≡ true
unfolding work_all
work_all_alive [] d c alive = alive
work_all_alive (r ∷ replies) d (caught, c) alive =
    work_all_alive replies (work r d) c (work_alive r d caught alive)

finished_done :
    (n : ℕ) (d : AlertAudioDispatcher)
    → remaining d ≡ 0
    → is_alive d.worker ≡ true
    → is_tracked n d ≡ true
    → n < d.next_sequence
    → is_done (d.futures n) ≡ true
unfolding remaining steps_of is_tracked in_hand waits is_alive
finished_done n d free alive tracked given = go d.queue refl d.worker refl
  where
    go :
        (jobs : List QueuedAlertAudioJob)
        → d.queue ≡ jobs
        → (w : Worker) → d.worker ≡ w
        → is_done (d.futures n) ≡ true
    go [] none_left idle rest =
        ground (arith, tracked, ap (waits n) none_left, ap (in_hand n) rest, given)
    go (k ∷ jobs) e w at = ground (arith, ap length e)
    go [] none_left (ended j) at = ground (arith, alive, ap is_alive at)
    go [] none_left (rendering j) at = ground (arith, ap steps_of at)
    go [] none_left (pushing j path) at = ground (arith, ap steps_of at)

-- Whatever was submitted, cancelled and worked on before, as many steps of the worker as `remaining` counts
-- (three for each waiting job at most, and two for the one at hand) finish the future of every submitted job,
-- with a result, an exception or its cancellation, whatever the callbacks return or raise, as long as all that
-- they raise is an `Exception`: one that is not, such as a CancelledError, ends the worker.
pub work_all-is_done :
    (acts : List Act) (replies : List Replies) (n : ℕ)
    → All (λ a. is_caught_act a ≡ true) acts
    → All (λ r. is_caught r ≡ true) replies
    → remaining (act_all acts new_dispatcher) ≤ length replies
    → n < (work_all replies (act_all acts new_dispatcher)).next_sequence
    → is_done ((work_all replies (act_all acts new_dispatcher)).futures n) ≡ true
unfolding is_tracked new_dispatcher is_alive
work_all-is_done acts replies n caught_before caught enough given =
    let alive = act_all_alive acts new_dispatcher caught_before refl in
    finished_done n (work_all replies (act_all acts new_dispatcher))
      (work_all-remaining replies (act_all acts new_dispatcher) caught alive enough)
      (work_all_alive replies (act_all acts new_dispatcher) caught alive)
      (work_all_tracked n replies (act_all acts new_dispatcher)
        (act_all_tracked n acts new_dispatcher (ground arith)))
      given
