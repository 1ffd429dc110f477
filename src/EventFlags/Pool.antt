-- ===== src/EventFlags/Pool.antt =====
-- osal_event_flags_create and osal_event_flags_destroy of src/common/emulated_event_flags.inl, over
-- Creation. A handle is the index of its object's slot.
use micr_osal.Common.{
  ℕ, ◌+◌, ◌≡◌, refl, inr, List, ◌∷◌, Option, none, Bool, true, false, not, subst, if◌then◌else◌,
  length, arith,
}
use micr_osal.Error.{Result, ok, invalid_argument}
use micr_osal.Slots
use micr_osal.Creation.{Objects, create_in, create_in-Outcome, Outcome}
use micr_osal.Creation
use micr_osal.EventFlags.{EventFlags, fresh, max_waiters}

-- osal_event_flags_create: its result, what it writes to the handle, and the objects after. `answers`
-- of the mutex, and then of the semaphore of each slot, say whether it can be created.
unfoldable pub create :
    Objects EventFlags → Bool → Bool → List Bool → Result × Option ℕ × Objects EventFlags
create p handle mutex sems =
    if not handle
    then (invalid_argument, none, p)
    else create_in p none (λ ef. fresh) fresh (mutex ∷ sems) (Slots.acquire p.used)

-- osal_event_flags_destroy
unfoldable pub destroy : Objects EventFlags → Option ℕ → Result × Option ℕ × Objects EventFlags
destroy p h = Creation.destroy p ok (max_waiters + 1) h

-- With an answer for each slot's semaphore: a creation hands out a slot that was free with event flags
-- that are all clear and have no waiters, and destroying the mutex and the semaphores undoes it; or it
-- fails, hands out nothing, and leaves the slots' flags and the live kernel objects as they were.
pub create_flags :
    (p : Objects EventFlags) (handle mutex : Bool) (sems : List Bool)
    → length p.objects ≡ length p.used
    → length sems ≡ max_waiters
    → Outcome fresh (λ ef. ef ≡ fresh) p (max_waiters + 1) (create p handle mutex sems)
unfolding create
create_flags p false mutex sems same all = inr (λ z. cc, refl, refl, refl)
create_flags p true mutex sems same all =
    let n : length (mutex ∷ sems) ≡ max_waiters + 1 = omega (arith, all) in
    subst
      (λ k.
        Outcome fresh (λ ef. ef ≡ fresh) p k
          (create_in p none (λ ef. fresh) fresh (mutex ∷ sems) (Slots.acquire p.used)))
      n
      (create_in-Outcome p none (λ ef. fresh) fresh (mutex ∷ sems) (λ ef. ef ≡ fresh) same (λ z. cc)
        (λ e o. refl))
