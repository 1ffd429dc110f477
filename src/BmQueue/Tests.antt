-- ===== src/BmQueue/Tests.antt =====
-- A bare-metal queue in use, and the theorem at concrete inputs.
use micr_osal.Common.{◌≡◌, refl, List, [], ◌∷◌, none, some, replicate, arith}
use micr_osal.Error.{ok, timeout, would_block}
use micr_osal.BmQueue.{
  Item, Queue, Round, fresh, put, get, send_loop, receive_loop, send, receive, send_isr,
  receive_isr, peek, count_of, free_of,
}
use micr_osal.BmQueue.Spec.{
  Call, sends, receives, peeks, asks, sent, received, sizes, step, run, abstract_run,
}
use micr_osal.BmQueue.Refine.{queue_refines}

abbrev buffer : List Item
buffer = replicate 2 (0 ∷ [])

-- Three sends to a queue of two items, and what comes out.
abbrev calls : List Call
calls =
    sends (1 ∷ []) 10
    ∷ sends (2 ∷ []) 11
    ∷ sends (3 ∷ []) 12
    ∷ receives 13
    ∷ sends (4 ∷ []) 14
    ∷ peeks
    ∷ asks
    ∷ receives 15
    ∷ receives 16
    ∷ receives 17
    ∷ []

run-calls :
    run (some (fresh buffer 2)) calls
    ≡ sent ok
      ∷ sent ok
      ∷ sent would_block
      ∷ received ok (some (1 ∷ []))
      ∷ sent ok
      ∷ received ok (some (2 ∷ []))
      ∷ sizes 2 0
      ∷ received ok (some (2 ∷ []))
      ∷ received ok (some (4 ∷ []))
      ∷ received timeout none
      ∷ []
unfolding run step send_isr send send_loop put receive_isr receive receive_loop get peek count_of
    free_of
run-calls = refl

queue_refines_example : run (some (fresh buffer 2)) calls ≡ abstract_run 2 [] calls
queue_refines_example = queue_refines buffer 2 calls (omega arith) (omega arith) (omega arith)

-- A send that waits for a receiver.
abbrev full : Queue
full = record { buf = (1 ∷ []) ∷ (2 ∷ []) ∷ []; capacity = 2; head = 0; tail = 0; count = 2 }

abbrev received_one : Queue
received_one = record full { head = 1; count = 1 }

abbrev rounds : List Round
rounds =
    record { now = 104; others = λ q. received_one } ∷ record { now = 105; others = λ q. q } ∷ []

send-full :
    send (some full) (3 ∷ []) 5 100 rounds
    ≡ some (ok, some (record full { buf = (3 ∷ []) ∷ (2 ∷ []) ∷ []; head = 1; tail = 1 }))
unfolding send send_loop put
send-full = refl
