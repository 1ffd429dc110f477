-- ===== src/ThreadLocal/Tests.antt =====
-- Concrete runs of thread-local objects.
use micr_osal.Common.{◌≡◌, refl, List, [], ◌∷◌, some, true, false, replicate, arith}
use micr_osal.Clock.{pos, negsuc}
use micr_osal.Slots.{acquire, release}
use micr_osal.ThreadLocal.{
  Storage, fresh, bumped, take_bit, clear_bit, generation, store, load, current_slot,
}
use micr_osal.ThreadLocal.Spec.{Call, creates, destroys, sets, gets, replies, spec_replies}
use micr_osal.ThreadLocal.Refine.{storage_refines}

-- Two threads use an object, which is destroyed; the next object gets its key.
abbrev two_objects : List Call
two_objects =
    creates ∷ sets 0 1 7 ∷ sets 0 2 8 ∷ gets 0 1 ∷ gets 0 2 ∷ destroys 0 ∷ creates ∷ gets 0 1 ∷ []

storage_refines_example :
    replies (fresh 4) two_objects
    ≡ spec_replies (record { keys = replicate 4 false; held = λ t k. 0 }) two_objects
storage_refines_example = storage_refines two_objects 4 (omega arith)

-- A thread releases key 0, and is interrupted before it changes the generation; another acquires the key,
-- stores 9 under it, and finds null once the first has gone on.
abbrev released : Storage
released = record {
  used = true ∷ [];
  generations = λ k. 1;
  values = λ t k. 0;
  generations_seen = λ t k. 0;
}

abbrev acquired_between : Storage
acquired_between = bumped (record (clear_bit released 0) { used = true ∷ [] }) 0

lost_value :
    (take_bit (clear_bit released 0) ≡ some (0, record (clear_bit released 0) { used = true ∷ [] }))
    × (load (store acquired_between 2 0 9) 2 0 ≡ 9)
    × (load (bumped (store acquired_between 2 0 9) 0) 2 0 ≡ 0)
unfolding take_bit clear_bit acquire release store load generation
lost_value = (refl, refl, refl)

-- A task's slot, and that of code outside the tasks
current_slot_run : (current_slot 8 (pos 3) ≡ 4) × (current_slot 8 (negsuc 0) ≡ 0)
unfolding current_slot
current_slot_run = (refl, refl)
