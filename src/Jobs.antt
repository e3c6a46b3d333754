-- ===== src/Jobs.antt =====
-- seasonalweather/broadcast/alert_audio_jobs.py: the queue of rendered alert audio and its one worker. The
-- worker stops at each await, so submissions and cancellations come between its steps.
-- The cancellation of an idle worker, when the process stops, is left out.
pub mod Order
pub mod Tracked
pub mod Alive
pub mod Turns
pub mod Drain
mod Examples
use seasonal_weather.Prelude.{
  ℕ, zero, suc, ◌+◌, Bool, true, false, not, ◌&&◌, ◌||◌, Option, none, some, List, [], ◌∷◌, ◌++◌,
  if◌then◌else◌, ltb, ◌==◌, length, any, Text,
}

pub data AlertAudioMode : Type 0 where
  full : AlertAudioMode
  voice : AlertAudioMode

-- the two `RuntimeError`s of a stale job, and what a callback raises
pub data JobError : Type 0 where
  stale_before_render : AlertAudioMode → Text → JobError
  stale_before_push : AlertAudioMode → Text → JobError
  callback_error : Text → JobError

-- What a call returns or raises. `escaped` is an exception that is no `Exception`, such as a CancelledError,
-- which `except Exception` does not catch.
pub data Reply (A : Type 0) : Type 0 where
  value : A → Reply A
  raised : JobError → Reply A
  escaped : Reply A

-- what the callbacks of a job do when they are called
pub record Replies : Type 0 where
  pub stale_at_render : Reply Bool
  pub render : Reply Text
  pub stale_at_push : Reply Bool
  pub push : Reply Unit

pub record QueuedAlertAudioJob : Type 0 where
  pub priority : ℕ
  pub sequence : ℕ
  pub mode : AlertAudioMode
  pub source : Text
  pub has_stale_check : Bool

-- `order=True` over the two fields that are compared
pub precedes : QueuedAlertAudioJob → QueuedAlertAudioJob → Bool
precedes j k = ltb j.priority k.priority || (j.priority == k.priority && ltb j.sequence k.sequence)

-- `PriorityQueue.get`: a lowest entry, and the others
pub take_min :
    QueuedAlertAudioJob → List QueuedAlertAudioJob → QueuedAlertAudioJob × List QueuedAlertAudioJob
take_min j [] = (j, [])
take_min j (k ∷ jobs) =
    let (least, rest) = take_min k jobs in
    if precedes least j then (least, j ∷ rest) else (j, least ∷ rest)

pub pop_min : List QueuedAlertAudioJob → Option (QueuedAlertAudioJob × List QueuedAlertAudioJob)
pop_min [] = none
pop_min (j ∷ jobs) = some (take_min j jobs)

pub data Future : Type 0 where
  pending : Future
  cancelled : Future
  result : Text → Future
  exception : JobError → Future

pub is_done : Future → Bool
is_done pending = false
is_done cancelled = true
is_done (result path) = true
is_done (exception e) = true

pub is_cancelled : Future → Bool
is_cancelled pending = false
is_cancelled cancelled = true
is_cancelled (result path) = false
is_cancelled (exception e) = false

-- The await at which the worker stands. `ended` is a worker that an escaped exception ended, with the job that
-- it had, whose future nobody finishes.
pub data Worker : Type 0 where
  idle : Worker
  ended : QueuedAlertAudioJob → Worker
  rendering : QueuedAlertAudioJob → Worker
  pushing : QueuedAlertAudioJob → Text → Worker

-- the futures by the sequence numbers of their jobs
pub record AlertAudioDispatcher : Type 0 where
  pub queue : List QueuedAlertAudioJob
  pub next_sequence : ℕ
  pub is_started : Bool
  pub futures : ℕ → Future
  pub worker : Worker

pub new_dispatcher : AlertAudioDispatcher
new_dispatcher = record {
  queue = [];
  next_sequence = 0;
  is_started = false;
  futures = λ n. pending;
  worker = idle;
}

pub start : AlertAudioDispatcher → AlertAudioDispatcher
start d = record d { is_started = true }

pub set_future : ℕ → Future → AlertAudioDispatcher → AlertAudioDispatcher
set_future n f d = record d { futures = λ m. if m == n then f else d.futures m }

-- `set_result` and `set_exception`, where the future is not cancelled
pub resolve : ℕ → Future → AlertAudioDispatcher → AlertAudioDispatcher
resolve n f d = if is_cancelled (d.futures n) then d else set_future n f d

-- a caller that gives up
pub cancel : ℕ → AlertAudioDispatcher → AlertAudioDispatcher
cancel n d = if is_done (d.futures n) then d else set_future n cancelled d

-- `stale_check is not None and stale_check()`, which raises the given error or its own
pub check_stale : Bool → Reply Bool → JobError → Reply Unit
check_stale false reply e = value tt
check_stale true (value true) e = raised e
check_stale true (value false) e = value tt
check_stale true (raised error) e = raised error
check_stale true escaped e = escaped

-- `_run_inline`
pub push_inline : Text → Reply Unit → Reply Text
push_inline path (value u) = value path
push_inline path (raised e) = raised e
push_inline path escaped = escaped

pub render_inline : AlertAudioMode → Text → Bool → Replies → Reply Text → Reply Text
render_inline mode source checked r (raised e) = raised e
render_inline mode source checked r escaped = escaped
render_inline mode source checked r (value path) =
    elim (check_stale checked r.stale_at_push (stale_before_push mode source)) [
      | value u ↦ push_inline path r.push
      | raised e ↦ raised e
      | escaped ↦ escaped
    ]

pub run_inline : AlertAudioMode → Text → Bool → Replies → Reply Text
run_inline mode source checked r =
    elim (check_stale checked r.stale_at_render (stale_before_render mode source)) [
      | value u ↦ render_inline mode source checked r r.render
      | raised e ↦ raised e
      | escaped ↦ escaped
    ]

-- `int(priority)` is one of the two below; none is a caller that waits for the future of its job
pub submit :
    ℕ
    → AlertAudioMode
    → Text
    → Bool
    → Replies
    → AlertAudioDispatcher
    → Option (Reply Text) × AlertAudioDispatcher
submit priority mode source checked r d =
    if d.is_started
    then (
      none,
      record d {
        queue =
            d.queue
            ++ record {
              priority = priority;
              sequence = d.next_sequence;
              mode = mode;
              source = source;
              has_stale_check = checked;
            }
              ∷ [];
        next_sequence = suc d.next_sequence;
        futures = λ m. if m == d.next_sequence then pending else d.futures m;
      },
    )
    else (some (run_inline mode source checked r), d)

abbrev pub full_priority : ℕ
full_priority = 0

abbrev pub voice_priority : ℕ
voice_priority = 10

pub render_and_push_full :
    Text → Bool → Replies → AlertAudioDispatcher → Option (Reply Text) × AlertAudioDispatcher
render_and_push_full source checked r d = submit full_priority full source checked r d

pub render_and_push_voice :
    Text → Bool → Replies → AlertAudioDispatcher → Option (Reply Text) × AlertAudioDispatcher
render_and_push_voice source checked r d = submit voice_priority voice source checked r d

pub finish : QueuedAlertAudioJob → Future → AlertAudioDispatcher → AlertAudioDispatcher
finish j f d = resolve j.sequence f (record d { worker = idle })

-- nothing catches the exception, and `run_forever` ends with it
pub escape : QueuedAlertAudioJob → AlertAudioDispatcher → AlertAudioDispatcher
escape j d = record d { worker = ended j }

-- the worker takes a job, up to its call of `render`
pub take_job : QueuedAlertAudioJob → Replies → AlertAudioDispatcher → AlertAudioDispatcher
take_job j r d =
    if is_cancelled (d.futures j.sequence)
    then d
    else elim (check_stale j.has_stale_check r.stale_at_render
        (stale_before_render j.mode j.source)) [
          | value u ↦ record d { worker = rendering j }
          | raised e ↦ finish j (exception e) d
          | escaped ↦ escape j d
        ]

pub rendered :
    QueuedAlertAudioJob → Replies → Reply Text → AlertAudioDispatcher → AlertAudioDispatcher
rendered j r (raised e) d = finish j (exception e) d
rendered j r escaped d = escape j d
rendered j r (value path) d =
    elim (check_stale j.has_stale_check r.stale_at_push (stale_before_push j.mode j.source)) [
      | value u ↦ record d { worker = pushing j path }
      | raised e ↦ finish j (exception e) d
      | escaped ↦ escape j d
    ]

pub pushed : QueuedAlertAudioJob → Text → Reply Unit → AlertAudioDispatcher → AlertAudioDispatcher
pushed j path (value u) d = finish j (result path) d
pushed j path (raised e) d = finish j (exception e) d
pushed j path escaped d = escape j d

-- `run_forever` and `_run_job`, from one await to the next
pub work : Replies → AlertAudioDispatcher → AlertAudioDispatcher
work r d = elim d.worker [
  | idle ↦ elim (pop_min d.queue) [
    | none ↦ d
    | some (j, rest) ↦ take_job j r (record d { queue = rest })
  ]
  | ended j ↦ d
  | rendering j ↦ rendered j r r.render d
  | pushing j path ↦ pushed j path r.push d
]

pub work_all : List Replies → AlertAudioDispatcher → AlertAudioDispatcher
work_all [] d = d
work_all (r ∷ replies) d = work_all replies (work r d)
