-- ===== src/Barrier/Tests.antt =====
-- A barrier in use, and the theorems at concrete inputs.
use micr_osal.Common.{◌+◌, ◌*◌, ◌<◌, ◌≡◌, refl, List, [], ◌∷◌, some, true, false, arith}
use micr_osal.Error.{ok, out_of_resources}
use micr_osal.CondWait.{Turn, cond_wait}
use micr_osal.Creation.{Objects, create_in, create_all}
use micr_osal.Slots
use micr_osal.Barrier.{Barrier, fresh, arrive, create}
use micr_osal.Barrier.Wait.{Ended, wait_ends}
use micr_osal.Barrier.Rounds.{
  Action, arrives, wakes, breaks, run, step, woken, without, with_broken, start, waiting_for,
  free_to_go, barrier_rounds,
}

-- Three threads, of which the first wakes early, and the first of the next round, whose wait fails.
abbrev script : List Action
script = arrives ∷ wakes 0 ∷ arrives ∷ arrives ∷ arrives ∷ wakes 0 ∷ wakes 1 ∷ breaks 1 ∷ []

run-script : ((run (start 3) script).inside ≡ 0 ∷ []) × ((run (start 3) script).broken ≡ 1 ∷ [])
unfolding run step woken without with_broken
run-script = (refl, refl)

barrier_rounds_example :
    let s = run (start 3) script in
    let g = s.barrier.generation in
    let current = waiting_for g s.inside + waiting_for g s.broken in
    (s.arrivals ≡ s.serials * 3 + current)
    × (current < 3)
    × (s.serials + s.released + free_to_go g s.inside + free_to_go g s.broken ≡ s.serials * 3)
barrier_rounds_example = barrier_rounds 3 script (omega arith) (omega arith) (omega arith)

abbrev one_in : Barrier
one_in = record { threshold = 3; arrived = 1; generation = 7 }

-- The condition variable wakes the thread once for nothing and then fails.
abbrev turns : List (Turn Barrier)
turns =
    record { now = 0; others = λ b. b; answer = ok }
    ∷ record { now = 0; others = λ b. b; answer = out_of_resources }
    ∷ []

abbrev two_in : Barrier
two_in = record one_in { arrived = 2 }

arrive-one_in : arrive one_in turns ≡ some (out_of_resources, two_in)
unfolding arrive cond_wait
arrive-one_in = refl

wait_ends_example : Ended turns one_in out_of_resources two_in
wait_ends_example = wait_ends one_in two_in turns out_of_resources arrive-one_in

abbrev slots : Objects Barrier
slots = record { objects = fresh 2 ∷ fresh 4 ∷ []; used = true ∷ false ∷ []; live = 2 }

create-slots :
    create slots true 3 (true, true)
    ≡ (ok, some 1, record { objects = fresh 2 ∷ fresh 3 ∷ []; used = true ∷ true ∷ []; live = 4 })
unfolding create create_in create_all Slots.acquire
create-slots = refl
