-- ===== src/StopToken/Tests.antt =====
-- Concrete runs of a stop source.
use micr_osal.Common.{◌≡◌, ◌≤◌, refl, List, [], ◌∷◌, false}
use micr_osal.Error.{overflow}
use micr_osal.StopToken.{
  detached, ended, Source, fresh, construct, request_stop, take_next, requester_step, close,
  unlinked, is_linked, unlink, await_done, Event, constructs, requests, requester_goes, closes,
  rechecks, step, run,
}
use micr_osal.StopToken.Invariant.{times}
use micr_osal.StopToken.Safety.{rounds, callback_once, detached-ran, request_stop-rounds}

-- Callbacks 1 and 2 are registered, a stop is requested, and while 2 is called, both are closed; the close
-- of 2 waits until it has run.
abbrev closing_run : List Event
closing_run =
    constructs 1
    ∷ constructs 2
    ∷ requests
    ∷ closes false 1
    ∷ closes false 2
    ∷ requester_goes
    ∷ rechecks false 2
    ∷ requester_goes
    ∷ rechecks false 2
    ∷ []

callback_once_example : (run 8 closing_run fresh).ran 2 ≤ 1
callback_once_example = callback_once 8 closing_run 2

detached-ran_example :
    ((run 8 (requests ∷ constructs 3 ∷ []) (run 8 closing_run fresh)).life 1 ≡ detached)
    × ((run 8 (requests ∷ constructs 3 ∷ []) (run 8 closing_run fresh)).ran 1
        ≡ (run 8 closing_run fresh).ran 1)
unfolding run step construct request_stop take_next requester_step close unlinked is_linked unlink
    await_done
detached-ran_example = detached-ran 8 closing_run (requests ∷ constructs 3 ∷ []) 1 refl

-- How often they have run.
closing_counts :
    ((run 8 closing_run fresh).ran 1 ≡ 0)
    × ((run 8 closing_run fresh).ran 2 ≡ 1)
    × ((run 8 closing_run fresh).life 2 ≡ detached)
    × ((run 8 closing_run fresh).count ≡ 0)
unfolding run step construct request_stop take_next requester_step close unlinked is_linked unlink
    await_done
closing_counts = (refl, refl, refl, refl)

abbrev two_registered : Source
two_registered = record fresh { linked = 5 ∷ 4 ∷ []; count = 2 }

request_stop-rounds_example :
    ((run 8 (requests ∷ rounds (5 ∷ 4 ∷ [])) two_registered).requester ≡ ended)
    × ((run 8 (requests ∷ rounds (5 ∷ 4 ∷ [])) two_registered).linked ≡ [])
    × ((run 8 (requests ∷ rounds (5 ∷ 4 ∷ [])) two_registered).ran 4 ≡ 1)
unfolding times
request_stop-rounds_example = request_stop-rounds 8 two_registered 4 refl

-- The third callback of a source for two is refused.
refused_construct : (construct 2 6 two_registered).0 ≡ overflow
unfolding construct
refused_construct = refl
