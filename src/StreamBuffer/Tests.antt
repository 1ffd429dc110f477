-- ===== src/StreamBuffer/Tests.antt =====
-- A stream buffer of four bytes at work, and the theorems at concrete inputs.
use micr_osal.Common.{◌-◌, ◌^◌}
use micr_osal.StreamBuffer.Refine.{get_lem}
use micr_osal.StreamBuffer.Blocking.Send.{Sent}
use micr_osal.StreamBuffer.Blocking.Receive.{Received}
use micr_osal.Common.{
  ℕ, ◌≡◌, refl, List, [], ◌∷◌, Option, some, true, false, arith, inl, inr, replicate,
}
use micr_osal.Error.{Result, ok, timeout}
use micr_osal.Semaphore.{new_semaphore, give}
use micr_osal.Tick.{no_wait}
use micr_osal.Ring.{copy_in, copy_out}
use micr_osal.ByteRing.{write, read, flush}
use micr_osal.StreamBuffer.{
  StreamBuffer, Wake, put, get, send, send_loop, send_isr, receive, receive_loop, receive_isr, run,
  step, wait_space, available, free_space, reset,
}
use micr_osal.StreamBuffer.Spec
use micr_osal.StreamBuffer.Spec.{
  Call, Reply, sends, receives, resets, asks, answered, delivered, state,
}
use micr_osal.StreamBuffer.Refine.{IsValid, client_refines}
use micr_osal.StreamBuffer.Blocking.{Steady}
use micr_osal.StreamBuffer.Blocking.Send.{send_atomic}
use micr_osal.StreamBuffer.Blocking.Receive.{receive_atomic, calls_return}
use micr_osal.StreamBuffer.Pool.{Pool, fresh}

-- Two bytes held, the second past the end of the storage, and a trigger level of 2.
abbrev wrapped : StreamBuffer
wrapped = record {
  ring = record {
    ring = record { buf = 8 ∷ 0 ∷ 0 ∷ 0 ∷ 7 ∷ []; head = 1; tail = 4 };
    ring_size = 5;
    capacity = 4;
  };
  trigger = 2;
  data_sem = new_semaphore 1 1;
  space_sem = new_semaphore 0 1;
}

abbrev script : List Call
script =
    sends (1 ∷ 2 ∷ 3 ∷ [])
    ∷ sends (1 ∷ 2 ∷ [])
    ∷ asks
    ∷ receives 3
    ∷ receives 3
    ∷ resets
    ∷ asks
    ∷ []

wrapped-IsValid : IsValid wrapped
wrapped-IsValid = omega arith

run-wrapped :
    run (some wrapped) script
    ≡ answered timeout
      ∷ answered ok
      ∷ state 4 0
      ∷ delivered (7 ∷ 8 ∷ 1 ∷ [])
      ∷ delivered []
      ∷ answered ok
      ∷ state 0 4
      ∷ []
unfolding run step send_isr receive_isr put get reset available free_space write read flush copy_in
    copy_out give
run-wrapped = refl

client_refines_example : run (some wrapped) script ≡ Spec.run 4 2 (7 ∷ 8 ∷ []) script
client_refines_example = client_refines 4 2 script (some wrapped) (wrapped-IsValid, refl, refl)

-- The consumer empties the buffer while the producer waits.
abbrev emptied : Wake
emptied = record { now = 5; others = λ s. (get s 4).1 }

get-keeps : (x : StreamBuffer) → IsValid x → IsValid (emptied.others x)
get-keeps x v = (get_lem x v 4).3

emptied-Steady : Steady (emptied ∷ [])
emptied-Steady = (get-keeps, tt)

abbrev three : List ℕ
three = 1 ∷ 2 ∷ 3 ∷ []

send_waits :
    send (some wrapped) (some three) 10 0 (emptied ∷ [])
    ≡ some (ok, some (put (wait_space emptied wrapped) three))
unfolding send send_loop wait_space get read copy_out give
send_waits = refl

send_atomic_example :
    Sent wrapped three (emptied ∷ []) ok (some (put (wait_space emptied wrapped) three))
send_atomic_example =
    send_atomic wrapped three 10 0 (emptied ∷ []) ok (some (put (wait_space emptied wrapped) three))
      wrapped-IsValid emptied-Steady send_waits

-- Nobody makes room, and the second reading of the clock is past the timeout, over a wrap-around.
abbrev idle : List Wake
idle = record { now = 2 ^ 32 - 1; others = λ s. s } ∷ record { now = 8; others = λ s. s } ∷ []

receive_atomic_example : Received wrapped 1 [] (7 ∷ []) (some (get wrapped 1).1)
unfolding receive receive_loop get read copy_out
receive_atomic_example =
    receive_atomic wrapped 1 no_wait 0 [] (7 ∷ []) (some (get wrapped 1).1) wrapped-IsValid tt
      (omega arith) refl

-- Two slots, the first one taken.
abbrev half_used : Pool
half_used = record { objects = wrapped ∷ wrapped ∷ []; used = true ∷ false ∷ []; semaphores = 2 }

abbrev both_used : Pool
both_used = record {
  objects = wrapped ∷ fresh (replicate 5 0) 4 0 ∷ [];
  used = true ∷ true ∷ [];
  semaphores = 4;
}

calls_return_example :
    ((x : Result × Option StreamBuffer) × (send (some wrapped) (some three) 10 (2 ^ 32 - 2) idle
        ≡ some x))
    × ((y : List ℕ × Option StreamBuffer) × (receive (some wrapped) true 4 10 (2 ^ 32 - 2) idle
          ≡ some y))
calls_return_example = calls_return wrapped three true 4 10 (2 ^ 32 - 2) idle (inr (inr (inl refl)))
