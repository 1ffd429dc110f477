-- ===== src/Barrier/Wait.antt =====
-- One call of osal_barrier_wait, whatever the other threads do meanwhile; and creation.
use micr_osal.Common.{
  ℕ, ◌≡◌, ◌≢◌, refl, sym, ap, ◌∙◌, ◌⊎◌, inl, inr, List, [], ◌∷◌, none, some, Bool, not, ◌||◌, ◌==◌,
  arith, Bool-cases, some-eq, length, ==→ne, ==→eq, subst,
}
use micr_osal.Error.{Result, ok, barrier_serial}
use micr_osal.Tick.{wait_forever}
use micr_osal.CondWait.{
  Turn, Reached, GaveUp, cond_wait-ends, cond_wait-GaveUp, any_failure, any_failure-ne,
}
use micr_osal.Creation.{Objects, create_in-Outcome, Outcome}
use micr_osal.Barrier.{
  Barrier, next, fresh, is_last, opened, counted, same_generation, arrive, create,
}

-- What it is for a wait on `b` to fail: each time it waited on the condition variable it found the
-- generation that it came in, and the last of these waits returned the error `r`, which is no success.
abbrev pub Broken : List (Turn Barrier) → Barrier → Result → Barrier → Type 0
Broken ts b r b' =
    GaveUp (same_generation b.generation) (λ x. x) any_failure wait_forever 0 (counted b) ts r b'

-- How a wait on `b` ends with `r` and the barrier `b'`: as the last of its round, which it opens; let
-- through by a later generation; or failed, with its arrival still counted.
abbrev pub Ended : List (Turn Barrier) → Barrier → Result → Barrier → Type 0
Ended ts b r b' =
    ((next b.arrived ≡ b.threshold) × (r ≡ barrier_serial) × (b' ≡ opened b))
    ⊎ ((next b.arrived ≢ b.threshold)
        × Reached ts (counted b) b'
        × (((r ≡ ok) × (b'.generation ≢ b.generation)) ⊎ ((r ≢ ok) × Broken ts b r b')))

-- A wait that comes to an end under the mutex is either the last of its round, gets barrier_serial, and
-- leaves the barrier empty in the next generation; or it is counted as an arrival and the barrier is
-- left as the other threads made it from there, where it succeeds only once they have changed the
-- generation, and fails only with the error of one of its own waits on the condition variable, all of
-- which found the old generation, and those before it returned no error.
pub wait_ends :
    (b b' : Barrier) (ts : List (Turn Barrier)) (r : Result)
    → arrive b ts ≡ some (r, b')
    → Ended ts b r b'
unfolding arrive
wait_ends b b' ts r e = elim (Bool-cases (is_last b)) [
  | inl l ↦
      let p = some-eq (rw l at e) in
      inl (==→eq (next b.arrived) b.threshold l, ap (λ x. x.0) (sym p), ap (λ x. x.1) (sym p))
  | inr l ↦
      let late = ==→ne (next b.arrived) b.threshold l in
      let loop = rw l at e in
      let (seen, there, ended) =
        cond_wait-ends (same_generation b.generation) (λ x. x) any_failure wait_forever 0
          (counted b) ts any_failure-ne loop in
      let why =
        cond_wait-GaveUp (same_generation b.generation) (λ x. x) any_failure wait_forever 0
          (counted b) ts loop in
      elim ended [
        | inl (good, moved, same) ↦ inr (
          late,
          subst (Reached ts (counted b)) (sym same) there,
          inl (
            good,
            λ z.
                ==→ne b.generation seen.generation moved
                  (sym (ap (λ x. x.generation) (sym same) ∙ z)),
          ),
        )
        | inr (bad, same) ↦ elim why [
          | inl good ↦ absurd (bad good)
          | inr gone ↦ inr (late, subst (Reached ts (counted b)) (sym same) there, inr (bad, gone))
        ]
      ]
]

-- A creation hands out a slot that was free with an empty barrier for `count` threads, and destroying it
-- gives everything back; or it fails, hands out nothing, and leaves the slots' flags and the live kernel
-- objects as they were.
pub create_barrier :
    (p : Objects Barrier) (handle : Bool) (count : ℕ) (answers : Bool × Bool)
    → length p.objects ≡ length p.used
    → Outcome (fresh 0) (λ b. (count ≢ 0) × (b ≡ fresh count)) p 2 (create p handle count answers)
unfolding create
create_barrier p handle count (mutex, cond) same = elim (Bool-cases (not handle || count == 0)) [
  | inl b ↦ rw b (inr (λ z. cc, refl, refl, refl))
  | inr b ↦
      let some_count : count ≢ 0 = ground arith in
      rw b (
        create_in-Outcome p none (λ b. fresh count) (fresh 0) (mutex ∷ cond ∷ [])
          (λ b. (count ≢ 0) × (b ≡ fresh count)) same (λ z. cc) (λ e o. (some_count, refl)))
]
