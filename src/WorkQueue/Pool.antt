-- ===== src/WorkQueue/Pool.antt =====
-- osal_work_queue_create and osal_work_queue_destroy of src/common/emulated_work_queue.inl, over
-- Creation. A handle is the index of its object's slot.
use micr_osal.Common.{
  ℕ, ◌≤◌, ◌≡◌, ◌≢◌, refl, ap, ◌⊎◌, inl, inr, [], ◌∷◌, Option, none, some, Bool, ◌||◌, not, ltb,
  ◌==◌, if◌then◌else◌, arith, length, set, get_or, Bool-cases, subst,
}
use micr_osal.Error.{Result, ok, invalid_argument}
use micr_osal.Slots
use micr_osal.Creation.{Objects, create_in, create_in-Outcome, Made, Refused, Outcome}
use micr_osal.Creation
use micr_osal.WorkQueue.{WorkQueue, max_depth, fresh, request_stop}

abbrev pub no_queue : WorkQueue
no_queue = fresh [] 0

-- What a creation does with its slot once it has one: it refuses a depth above the maximum, and
-- otherwise stores the fields and creates the mutex, the semaphore, the condition variable and the
-- worker.
abbrev pub refusal : ℕ → Option Result
refusal depth = if ltb max_depth depth then some invalid_argument else none

-- osal_work_queue_create: its result, what it writes to the handle, and the objects after. `answers`
-- says which of the four kernel objects can be created.
unfoldable pub create :
    Objects WorkQueue → Bool → ℕ → Bool × Bool × Bool × Bool → Result × Option ℕ × Objects WorkQueue
create p handle depth (mutex, sem, cond, thread) =
    if not handle || depth == 0
    then (invalid_argument, none, p)
    else create_in p (refusal depth) (λ o. fresh o.ring depth) no_queue
        (mutex ∷ sem ∷ cond ∷ thread ∷ []) (Slots.acquire p.used)

-- osal_work_queue_destroy; `joined` is what the worker does to the queue until it returns.
unfoldable pub destroy :
    Objects WorkQueue → (WorkQueue → WorkQueue) → Option ℕ → Result × Option ℕ × Objects WorkQueue
destroy p joined none = (ok, none, p)
destroy p joined (some i) =
    let last = joined (request_stop (get_or p.objects i no_queue)) in
    Creation.destroy (record p { objects = set p.objects i last }) ok 4 (some i)

-- An empty queue of the depth that was asked for, over the storage of its slot.
abbrev pub Empty : ℕ → WorkQueue → Type 0
Empty depth wq = (depth ≤ max_depth) × (wq ≡ fresh wq.ring depth)

refusal-ne : (depth : ℕ) → refusal depth ≢ some ok
refusal-ne depth e = ground arith

refusal-none : (depth : ℕ) → refusal depth ≡ none → depth ≤ max_depth
refusal-none depth e = ground arith

create-Outcome :
    (p : Objects WorkQueue) (handle : Bool) (depth : ℕ) (answers : Bool × Bool × Bool × Bool)
    → length p.objects ≡ length p.used
    → Outcome no_queue (Empty depth) p 4 (create p handle depth answers)
unfolding create
create-Outcome p handle depth (mutex, sem, cond, thread) same =
    elim (Bool-cases (not handle || depth == 0)) [
      | inl b ↦ rw b (inr (λ z. cc, refl, refl, refl))
      | inr b ↦ rw b (
          create_in-Outcome p (refusal depth) (λ o. fresh o.ring depth) no_queue
            (mutex ∷ sem ∷ cond ∷ thread ∷ []) (Empty depth) same (refusal-ne depth)
            (λ e o. (refusal-none depth e, refl)))
    ]

-- Destroying an object gives back the slot and the four kernel objects, whatever the worker did.
destroy-flags :
    (p p' : Objects WorkQueue) (joined : WorkQueue → WorkQueue) (h : Option ℕ)
    → Made no_queue (λ o. Unit) p 4 h p'
    → ((destroy p' joined h).2.used ≡ p.used) × ((destroy p' joined h).2.live ≡ p.live)
unfolding destroy Creation.destroy
destroy-flags p p' joined h (i, e, free, good, undone) =
    rw e (ap (λ x. x.used) undone, ap (λ x. x.live) undone)

-- A creation hands out a slot that was free, with an empty queue of the depth that was asked for, which
-- is at most the maximum, and destroying it, whatever its worker did meanwhile, gives back the slot,
-- the mutex, the semaphore, the condition variable and the worker; or it fails, hands out nothing, and
-- leaves every slot's flag and the number of live kernel objects as they were.
pub create_queue :
    (p p' : Objects WorkQueue) (handle : Bool) (depth : ℕ) (answers : Bool × Bool × Bool × Bool)
    (r : Result) (h : Option ℕ) (joined : WorkQueue → WorkQueue)
    → length p.objects ≡ length p.used
    → create p handle depth answers ≡ (r, h, p')
    → ((r ≡ ok)
        × Made no_queue (Empty depth) p 4 h p'
        × ((destroy p' joined h).2.used ≡ p.used)
        × ((destroy p' joined h).2.live ≡ p.live))
      ⊎ Refused p r h p'
create_queue p p' handle depth answers r h joined same e =
    elim (subst (Outcome no_queue (Empty depth) p 4) e
      (create-Outcome p handle depth answers same)) [
        | inl (good, (i, at_i, free, empty, undone)) ↦
            let back = destroy-flags p p' joined h (i, at_i, free, tt, undone) in
            inl (good, (i, at_i, free, empty, undone), back.0, back.1)
        | inr bad ↦ inr bad
      ]
