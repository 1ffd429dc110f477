-- ===== src/Barrier.antt =====
-- src/common/emulated_barrier.inl: a count of the threads that have arrived, a generation, and a wait
-- on a condition variable. What a call does under the mutex between two waits is one step.
pub mod Wait
pub mod Rounds
mod Tests
use micr_osal.Common.{
  ℕ, ◌+◌, ◌%◌, ◌^◌, List, [], ◌∷◌, Option, none, some, Bool, true, false, not, ◌||◌, ◌==◌,
  if◌then◌else◌,
}
use micr_osal.Error.{Result, ok, not_initialized, invalid_argument, barrier_serial, is_ok}
use micr_osal.Tick.{wait_forever}
use micr_osal.CondWait.{Turn, cond_wait, returned, any_failure}
use micr_osal.Creation.{Objects, create_in}
use micr_osal.Creation
use micr_osal.Slots

-- emulated_barrier_obj
pub record Barrier : Type 0 where
  pub threshold : ℕ
  pub arrived : ℕ
  pub generation : ℕ

-- `++` on an unsigned of 32 bits
abbrev pub next : ℕ → ℕ
next n = (n + 1) % 2 ^ 32

-- What osal_barrier_create stores.
abbrev pub fresh : ℕ → Barrier
fresh count = record { threshold = count; arrived = 0; generation = 0 }

-- The thread that makes the threshold full releases the others.
abbrev pub is_last : Barrier → Bool
is_last b = next b.arrived == b.threshold

abbrev pub opened : Barrier → Barrier
opened b = record b { arrived = 0; generation = next b.generation }

-- Any other one waits for the generation to change.
abbrev pub counted : Barrier → Barrier
counted b = record b { arrived = next b.arrived }

abbrev pub same_generation : ℕ → Barrier → Bool
same_generation generation b = generation == b.generation

-- What osal_barrier_wait does under the mutex.
unfoldable pub arrive : Barrier → List (Turn Barrier) → Option (Result × Barrier)
arrive b ts =
    if is_last b
    then some (barrier_serial, opened b)
    else cond_wait (same_generation b.generation) (λ x. x) any_failure wait_forever 0 (counted b) ts

-- osal_barrier_wait; `locked` is what the lock of the mutex gives.
unfoldable pub wait :
    Option Barrier → Result → List (Turn Barrier) → Option (Result × Option Barrier)
wait none locked ts = some (not_initialized, none)
wait (some b) locked ts = if is_ok locked then returned (arrive b ts) else some (locked, some b)

-- osal_barrier_create: its result, what it writes to the handle, and the objects after. `answers`
-- says whether the mutex and the condition variable can be created.
unfoldable pub create :
    Objects Barrier → Bool → ℕ → Bool × Bool → Result × Option ℕ × Objects Barrier
create p handle count (mutex, cond) =
    if not handle || count == 0
    then (invalid_argument, none, p)
    else create_in p none (λ b. fresh count) (fresh 0) (mutex ∷ cond ∷ []) (Slots.acquire p.used)

-- osal_barrier_destroy
unfoldable pub destroy : Objects Barrier → Option ℕ → Result × Option ℕ × Objects Barrier
destroy p h = Creation.destroy p ok 2 h
