-- ===== src/Jobs/Examples.antt =====
-- Voice and full alerts, an exception that ends the worker, and the theorems at them.
use seasonal_weather.Prelude.{All, ◌≡◌, refl, arith, true, false, List, [], ◌∷◌, codes}
use seasonal_weather.Jobs.{
  QueuedAlertAudioJob, AlertAudioDispatcher, AlertAudioMode, full, voice, JobError, Replies, Reply,
  value, raised, escaped, Future, pending, result, is_done, Worker, idle, rendering, work, work_all,
  run_inline, new_dispatcher, start, render_and_push_full, render_and_push_voice, submit,
}
use seasonal_weather.Jobs.Turns.{goes_before, work-goes_before}
use seasonal_weather.Jobs.Alive.{is_caught}
use seasonal_weather.Jobs.Tracked.{
  Act, starting, submitting_full, submitting_voice, working, cancelling, act_all,
}
use seasonal_weather.Jobs.Drain.{remaining, work_all-is_done}

abbrev smooth : Replies
smooth = record {
  stale_at_render = value false;
  render = value (codes "a.wav");
  stale_at_push = value false;
  push = value tt;
}

abbrev stale : Replies
stale = record {
  stale_at_render = value false;
  render = value (codes "a.wav");
  stale_at_push = value true;
  push = value tt;
}

abbrev acts : List Act
acts =
    starting
    ∷ submitting_voice (codes "cap") false smooth
    ∷ working smooth
    ∷ submitting_full (codes "nwws") true smooth
    ∷ []

abbrev three_waiting : List Act
three_waiting =
    starting
    ∷ submitting_voice (codes "cap") true smooth
    ∷ submitting_full (codes "nwws") true smooth
    ∷ submitting_full (codes "nwws") true smooth
    ∷ []

abbrev second_job : QueuedAlertAudioJob
second_job = record {
  priority = 0;
  sequence = 1;
  mode = full;
  source = codes "nwws";
  has_stale_check = true;
}

work-goes_before_example :
    All
      (λ k. goes_before k.mode k.sequence full 1 ≡ false)
      (work smooth (act_all three_waiting new_dispatcher)).queue
unfolding act_all seasonal_weather.Jobs.Tracked.act start submit work new_dispatcher
    seasonal_weather.Jobs.pop_min seasonal_weather.Jobs.take_job seasonal_weather.Jobs.is_cancelled
    seasonal_weather.Jobs.check_stale seasonal_weather.Jobs.take_min seasonal_weather.Jobs.precedes
    render_and_push_full render_and_push_voice
work-goes_before_example = work-goes_before three_waiting smooth second_job refl refl

-- a CancelledError of the first job's push ends the worker: its future and the next one's stay pending
abbrev interrupted : Replies
interrupted = record smooth { push = escaped }

abbrev two_waiting : List Act
two_waiting =
    starting
    ∷ submitting_full (codes "nwws") true smooth
    ∷ submitting_full (codes "nwws") true smooth
    ∷ working interrupted
    ∷ working interrupted
    ∷ working interrupted
    ∷ working smooth
    ∷ working smooth
    ∷ working smooth
    ∷ []

escaped_ends_worker :
    ((act_all two_waiting new_dispatcher).futures 0 ≡ pending)
    × ((act_all two_waiting new_dispatcher).futures 1 ≡ pending)
unfolding act_all seasonal_weather.Jobs.Tracked.act start submit work new_dispatcher
    seasonal_weather.Jobs.pop_min seasonal_weather.Jobs.take_job seasonal_weather.Jobs.is_cancelled
    seasonal_weather.Jobs.check_stale seasonal_weather.Jobs.take_min seasonal_weather.Jobs.precedes
    seasonal_weather.Jobs.rendered seasonal_weather.Jobs.pushed seasonal_weather.Jobs.escape
    render_and_push_full render_and_push_voice
escaped_ends_worker = (refl, refl)

work_all-is_done_example :
    is_done (
      (work_all
          (smooth ∷ stale ∷ smooth ∷ smooth ∷ smooth ∷ [])
          (act_all acts new_dispatcher)).futures
        1)
    ≡ true
unfolding remaining is_caught seasonal_weather.Jobs.Alive.catches
    seasonal_weather.Jobs.Alive.is_caught_act render_and_push_full render_and_push_voice
    seasonal_weather.Jobs.Drain.steps_of act_all seasonal_weather.Jobs.Tracked.act submit start work
    work_all new_dispatcher seasonal_weather.Jobs.pop_min seasonal_weather.Jobs.take_min
    seasonal_weather.Jobs.take_job seasonal_weather.Jobs.check_stale seasonal_weather.Jobs.finish
    seasonal_weather.Jobs.rendered seasonal_weather.Jobs.pushed seasonal_weather.Jobs.resolve
    seasonal_weather.Jobs.set_future seasonal_weather.Jobs.is_cancelled
work_all-is_done_example =
    work_all-is_done acts (smooth ∷ stale ∷ smooth ∷ smooth ∷ smooth ∷ []) 1
      (refl, (refl, (refl, (refl, tt)))) (refl, (refl, (refl, (refl, (refl, tt))))) (omega arith)
      (omega arith)
