-- ===== src/RingBuffer/Tests.antt =====
-- Ring buffers of three slots at work, and the theorems at concrete inputs.
use micr_osal.Common.{
  ℕ, ◌≤◌, ◌≡◌, ◌≢◌, refl, List, [], ◌∷◌, ◌++◌, none, some, true, false, arith, length,
}
use micr_osal.RingBuffer.{
  RingBuffer, Call, pushes, pushes_n, pops, peeks, resets, asks, pops_n, accepted, moved, popped,
  state, done, run, step, try_push, try_push_n, try_pop, try_pop_n, peek, reset, fresh,
}
use micr_osal.RingBuffer.Spec
use micr_osal.RingBuffer.Inv.{IsValid}
use micr_osal.RingBuffer.Refine.{contents, run_refines}
use micr_osal.RingBuffer.Spsc.{
  Turn, produce, consume, interleave, start, turn, producer_step, consumer_step,
}
use micr_osal.RingBuffer.Spsc.Safety.{interleave_fifo, interleave_no_race}
use micr_osal.Ring.{copy_in, copy_out}

-- Two items, the second past the end of the storage.
abbrev wrapped : RingBuffer ℕ
wrapped = record { buf = 8 ∷ 0 ∷ 0 ∷ 7 ∷ []; head = 1; tail = 3 }

abbrev script : List (Call ℕ)
script =
    pushes_n (1 ∷ 2 ∷ []) ∷ peeks ∷ asks ∷ pops_n 2 ∷ pops ∷ pops ∷ pushes 4 ∷ resets ∷ pops ∷ []

wrapped-IsValid : IsValid 3 wrapped
wrapped-IsValid = record {
  positive = omega arith;
  small = omega arith;
  storage = refl;
  head_in = omega arith;
  tail_in = omega arith;
}

run-wrapped :
    run 0 3 wrapped script
    ≡ moved 1 []
      ∷ popped (some 7)
      ∷ state 3 0 false true
      ∷ moved 2 (7 ∷ 8 ∷ [])
      ∷ popped (some 1)
      ∷ popped none
      ∷ accepted true
      ∷ done
      ∷ popped none
      ∷ []
unfolding run step try_push try_push_n try_pop try_pop_n peek reset copy_in copy_out
run-wrapped = refl

run_refines_example : run 0 3 wrapped script ≡ Spec.run 3 (7 ∷ 8 ∷ []) script
run_refines_example = run_refines 0 3 script wrapped wrapped-IsValid

-- The consumer acts between the producer's test and its write.
abbrev turns : List (Turn ℕ)
turns = produce 5 ∷ produce 5 ∷ produce 5 ∷ consume ∷ produce 6 ∷ []

interleave_fifo_example :
    let s = interleave 0 3 (start 0 3) turns in
    (s.pushed ≡ s.popped ++ contents 0 3 s.ring) × (length (contents 0 3 s.ring) ≤ 3)
interleave_fifo_example = interleave_fifo 0 3 (omega arith) (omega arith) turns

interleave_no_race_example : ◌≢◌ {A = ℕ} 1 0
unfolding interleave start turn producer_step consumer_step fresh
interleave_no_race_example =
    interleave_no_race 0 3 (omega arith) (omega arith) turns 6 1 0 refl refl
