-- ===== src/Condvar/Tests.antt =====
-- A condition variable in use, and the theorems at concrete inputs.
use micr_osal.Common.{◌≡◌, refl, List, [], ◌∷◌, some, true, false, replicate}
use micr_osal.Error.{ok, timeout, out_of_resources}
use micr_osal.Semaphore.{give, try_take}
use micr_osal.Creation.{Objects}
use micr_osal.Condvar.{
  Condvar, fresh, claim, enter, update, take, fail, leave, wait, signal_first, signal_all, notify,
}
use micr_osal.Condvar.Seats.{
  Action, enters, takes, fails, leaves, notifies_one, step, run, IsValid, slots_consistent,
}
use micr_osal.Condvar.Notify.{asleep, OneWoken, notifications_wake}

-- Two threads wait, and the first gives up without leaving its slot.
abbrev given_up : List Action
given_up = enters ∷ enters ∷ fails 0 timeout ∷ []

-- The next notification is lost, and the one after it is not.
asleep-given_up :
    (asleep (run fresh given_up).waiters ≡ 1)
    × (asleep (run (run fresh given_up) (notifies_one ∷ [])).waiters ≡ 1)
    × (asleep (run (run fresh given_up) (notifies_one ∷ notifies_one ∷ [])).waiters ≡ 0)
unfolding asleep run step enter claim update fail signal_first try_take give
asleep-given_up = (refl, refl, refl)

-- The slot is used again after its thread has left, and its stale token is gone.
abbrev again : List Action
again = notifies_one ∷ leaves 0 ∷ enters ∷ takes 0 ∷ []

asleep-again : asleep (run (run fresh given_up) again).waiters ≡ 2
unfolding asleep run step enter claim update fail take leave signal_first give try_take
asleep-again = refl

slots_consistent_example : IsValid (run fresh given_up)
slots_consistent_example = slots_consistent given_up

notifications_wake_example :
    let cv = run fresh given_up in
    OneWoken cv.waiters (notify signal_first cv).waiters
    × (asleep (notify signal_all cv).waiters ≡ 0)
notifications_wake_example = notifications_wake given_up

-- All slots are in use.
wait-full :
    wait (some (run fresh (replicate 8 enters))) true (λ i cv. cv) ok
    ≡ (out_of_resources, some (run fresh (replicate 8 enters)))
unfolding wait run step enter claim try_take
wait-full = refl

abbrev slots : Objects Condvar
slots = record { objects = fresh ∷ fresh ∷ []; used = true ∷ false ∷ []; live = 9 }
