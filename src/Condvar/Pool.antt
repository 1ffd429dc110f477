-- ===== src/Condvar/Pool.antt =====
-- osal_condvar_create and osal_condvar_destroy of src/common/emulated_condvar.inl, over Creation. A
-- handle is the index of its object's slot.
use micr_osal.Common.{
  ℕ, ◌+◌, ◌≡◌, refl, inr, List, ◌∷◌, Option, none, Bool, true, false, not, subst, if◌then◌else◌,
  length, arith,
}
use micr_osal.Error.{Result, ok, invalid_argument}
use micr_osal.Slots
use micr_osal.Creation.{Objects, create_in, create_in-Outcome, Outcome}
use micr_osal.Creation
use micr_osal.Condvar.{Condvar, fresh, max_waiters}

-- osal_condvar_create: its result, what it writes to the handle, and the objects after. `answers` says
-- whether the mutex, and then the semaphore of each slot, can be created.
unfoldable pub create :
    Objects Condvar → Bool → Bool → List Bool → Result × Option ℕ × Objects Condvar
create p handle mutex sems =
    if not handle
    then (invalid_argument, none, p)
    else create_in p none (λ cv. fresh) fresh (mutex ∷ sems) (Slots.acquire p.used)

-- osal_condvar_destroy
unfoldable pub destroy : Objects Condvar → Option ℕ → Result × Option ℕ × Objects Condvar
destroy p h = Creation.destroy p ok (max_waiters + 1) h

-- With an answer for each slot's semaphore: a creation hands out a slot that was free with a condition
-- variable that has no waiters, and destroying its mutex and its semaphores undoes the creation; or it
-- fails, hands out nothing, and leaves the slots' flags and the live kernel objects as they were.
pub create_condvar :
    (p : Objects Condvar) (handle mutex : Bool) (sems : List Bool)
    → length p.objects ≡ length p.used
    → length sems ≡ max_waiters
    → Outcome fresh (λ cv. cv ≡ fresh) p (max_waiters + 1) (create p handle mutex sems)
unfolding create
create_condvar p false mutex sems same all = inr (λ z. cc, refl, refl, refl)
create_condvar p true mutex sems same all =
    let n : length (mutex ∷ sems) ≡ max_waiters + 1 = omega (arith, all) in
    subst
      (λ k.
        Outcome fresh (λ cv. cv ≡ fresh) p k
          (create_in p none (λ cv. fresh) fresh (mutex ∷ sems) (Slots.acquire p.used)))
      n
      (create_in-Outcome p none (λ cv. fresh) fresh (mutex ∷ sems) (λ cv. cv ≡ fresh) same (λ z. cc)
        (λ e o. refl))
