-- ===== src/DelayableWork/Tests.antt =====
-- Concrete runs of a delayable work item.
use micr_osal.Common.{◌+◌, ◌≤◌, ◌≡◌, ◌≢◌, refl, inl, List, [], ◌∷◌, ◌++◌, none, true, false, arith}
use micr_osal.Error.{ok, out_of_resources}
use micr_osal.Clock.{pos}
use micr_osal.DelayableWork.{armed, Word, schedule, cancel, done, Work, fresh}
use micr_osal.DelayableWork.Steps.{
  Event, calls, client_goes, timer_goes, runner_goes, tick, step, run, begin_call, client_step,
  timer_step, runner_step,
}
use micr_osal.DelayableWork.Owner.{Orderly}
use micr_osal.DelayableWork.Rest.{NoCalls}
use micr_osal.DelayableWork.Runs.{after, hand_over_due, begun-runs, took-runs, cancel-runs}
use micr_osal.DelayableWork.Flush.{flush, flush_returns}

-- A client arms a delay of 2.
abbrev arming_run : List Event
arming_run =
    calls (schedule 2)
    ∷ client_goes ok
    ∷ client_goes ok
    ∷ client_goes ok
    ∷ client_goes ok
    ∷ client_goes ok
    ∷ client_goes ok
    ∷ client_goes ok
    ∷ client_goes ok
    ∷ client_goes ok
    ∷ []

-- Two ticks later, the timer calls back and makes its test.
abbrev testing_run : List Event
testing_run =
    arming_run
    ++ tick
      ∷ tick
      ∷ timer_goes ok
      ∷ timer_goes ok
      ∷ timer_goes ok
      ∷ timer_goes ok
      ∷ timer_goes ok
      ∷ timer_goes ok
      ∷ []

-- It hands the callback over, and the queue's thread takes it.
abbrev taking_run : List Event
taking_run = testing_run ++ timer_goes ok ∷ timer_goes ok ∷ runner_goes ∷ []

-- A cancel comes before.
abbrev cancelling_run : List Event
cancelling_run = arming_run ++ calls cancel ∷ client_goes ok ∷ client_goes ok ∷ []

abbrev first_word : Word
first_word = record { generation = 1; state = armed }

testing_run-Orderly : Orderly testing_run (fresh true 5)
unfolding run
testing_run-Orderly = ground arith

taking_run-Orderly : Orderly taking_run (fresh true 5)
unfolding run
taking_run-Orderly = ground arith

cancelling_run-Orderly : Orderly cancelling_run (fresh true 5)
unfolding run
cancelling_run-Orderly = ground arith

hand_over_due_example : (after testing_run true 5).due ≤ (after testing_run true 5).now
unfolding run
hand_over_due_example =
    hand_over_due testing_run true 5 first_word 1 (omega arith) testing_run-Orderly refl refl
      (omega arith)

begun-runs_example :
    (after taking_run true 5).begun
    ≡ (after taking_run true 5).runs + (after taking_run true 5).dropped + 1
unfolding run
begun-runs_example = begun-runs taking_run true 5 taking_run-Orderly

took-runs_example :
    ((step runner_goes (after taking_run true 5)).runs ≡ (after taking_run true 5).runs + 1)
    × ((after taking_run true 5).items ≡ 0)
unfolding run
took-runs_example = took-runs taking_run true 5 taking_run-Orderly refl

-- After the cancel the timer still calls back, and time passes.
abbrev late_run : List Event
late_run = tick ∷ tick ∷ tick ∷ timer_goes ok ∷ runner_goes ∷ []

late_NoCalls : NoCalls late_run
late_NoCalls = (tt, (tt, (tt, (tt, (tt, tt)))))

cancel-runs_example :
    ((step (client_goes ok) (after cancelling_run true 5)).client ≡ done ok)
    × ((run late_run (step (client_goes ok) (after cancelling_run true 5))).runs
        ≡ (after cancelling_run true 5).runs)
unfolding run
cancel-runs_example =
    cancel-runs cancelling_run late_run true 5 cancelling_run-Orderly refl late_NoCalls

abbrev armed_item : Work
armed_item = record (fresh true 5) { word = first_word }

flush_returns_example : flush (pos 3) ((armed_item, false) ∷ (armed_item, true) ∷ []) ≢ none
flush_returns_example =
    flush_returns (pos 3) ((armed_item, false) ∷ []) [] armed_item true (inl refl)

-- The queue refuses the callback, while the client tries to cancel, and on_timer notes the error.
abbrev refusing_run : List Event
refusing_run =
    testing_run
    ++ timer_goes ok
      ∷ timer_goes out_of_resources
      ∷ calls cancel
      ∷ client_goes ok
      ∷ timer_goes ok
      ∷ client_goes ok
      ∷ tick
      ∷ []

-- A failing start that comes after the callback has been handed over: the caller gets an error, and the
-- entry that is in the queue does nothing.
abbrev failing_start_run : List Event
failing_start_run =
    calls (schedule 2)
    ∷ client_goes ok
    ∷ client_goes ok
    ∷ client_goes ok
    ∷ client_goes ok
    ∷ client_goes ok
    ∷ client_goes ok
    ∷ client_goes ok
    ∷ client_goes ok
    ∷ tick
    ∷ tick
    ∷ timer_goes ok
    ∷ timer_goes ok
    ∷ timer_goes ok
    ∷ timer_goes ok
    ∷ timer_goes ok
    ∷ timer_goes ok
    ∷ timer_goes ok
    ∷ timer_goes ok
    ∷ client_goes out_of_resources
    ∷ runner_goes
    ∷ runner_goes
    ∷ []

failing_start :
    ((after failing_start_run true 5).client ≡ done out_of_resources)
    × ((after failing_start_run true 5).runs ≡ 0)
    × ((after failing_start_run true 5).items ≡ 0)
unfolding run step client_step timer_step runner_step begin_call
failing_start = (refl, refl, refl)
