-- ===== src/BmQueue.antt =====
-- src/bare_metal/bare_metal_backend.cpp: the queue of items over a caller's buffer. An item is the list
-- of its bytes, and the buffer the list of its items; what a call does in its critical section is one
-- step.
pub mod Spec
pub mod Refine
mod Tests
use micr_osal.Common.{
  ℕ, ◌+◌, ◌-◌, ◌%◌, ◌^◌, List, [], ◌∷◌, Option, none, some, Bool, ltb, leb, ◌==◌, ◌||◌,
  if◌then◌else◌, get_or, set, add_size, sub_size,
}
use micr_osal.Error.{Result, ok, timeout, would_block, not_initialized}
use micr_osal.Tick.{wait_forever, no_wait}

abbrev pub Item : Type 0
Item = List ℕ

-- bm_queue
pub record Queue : Type 0 where
  pub buf : List Item
  pub capacity : ℕ
  pub head : ℕ
  pub tail : ℕ
  pub count : ℕ

-- What osal_queue_create stores.
abbrev pub fresh : List Item → ℕ → Queue
fresh buf capacity = record { buf = buf; capacity = capacity; head = 0; tail = 0; count = 0 }

abbrev pub next_index : Queue → ℕ → ℕ
next_index q i = add_size i 1 % q.capacity

-- The critical section of osal_queue_send: `none` when the queue is full.
unfoldable pub put : Queue → Item → Option Queue
put q item =
    if ltb q.count q.capacity
    then some
        (record q { buf = set q.buf q.tail item; tail = next_index q q.tail; count = q.count + 1 })
    else none

-- The critical section of osal_queue_receive.
unfoldable pub get : Queue → Option (Item × Queue)
get q =
    if ltb 0 q.count
    then some (get_or q.buf q.head [], record q { head = next_index q q.head; count = q.count - 1 })
    else none

-- One round of a call that waits: what bm_ticks_now gives after the section, and what other tasks and
-- interrupts do before the next one.
pub record Round : Type 0 where
  pub now : ℕ
  pub others : Queue → Queue

-- The absolute tick of 64 bits at which a wait ends.
abbrev pub deadline : ℕ → ℕ → ℕ
deadline ticks now = if ticks == wait_forever then 2 ^ 64 - 1 else (now + ticks) % 2 ^ 64

abbrev pub gives_up : ℕ → ℕ → ℕ → Bool
gives_up ticks until now = ticks == no_wait || leb until now

-- The loops of osal_queue_send and osal_queue_receive; `none` where the rounds end before the call.
unfoldable pub send_loop : Item → ℕ → ℕ → Queue → List Round → Option (Result × Queue)
send_loop item ticks until q [] = none
send_loop item ticks until q (t ∷ ts) =
    let rest = send_loop item ticks until (t.others q) ts in
    elim (put q item) [
      | some q' ↦ some (ok, q')
      | none ↦ if gives_up ticks until t.now then some (would_block, q) else rest
    ]

unfoldable pub receive_loop : ℕ → ℕ → Queue → List Round → Option (Result × Option Item × Queue)
receive_loop ticks until q [] = none
receive_loop ticks until q (t ∷ ts) =
    let rest = receive_loop ticks until (t.others q) ts in
    elim (get q) [
      | some (item, q') ↦ some (ok, some item, q')
      | none ↦ if gives_up ticks until t.now then some (timeout, none, q) else rest
    ]

-- osal_queue_send and osal_queue_receive; `now` is the clock at the start, and a received item is `none`
-- where nothing is written.
unfoldable pub send : Option Queue → Item → ℕ → ℕ → List Round → Option (Result × Option Queue)
send none item ticks now ts = some (not_initialized, none)
send (some q) item ticks now ts = elim (send_loop item ticks (deadline ticks now) q ts) [
  | some (r, q') ↦ some (r, some q')
  | none ↦ none
]

unfoldable pub receive :
    Option Queue → ℕ → ℕ → List Round → Option (Result × Option Item × Option Queue)
receive none ticks now ts = some (not_initialized, none, none)
receive (some q) ticks now ts = elim (receive_loop ticks (deadline ticks now) q ts) [
  | some (r, item, q') ↦ some (r, item, some q')
  | none ↦ none
]

-- A call that does not wait has one round.
abbrev pub only_round : ℕ → List Round
only_round now = record { now = now; others = λ q. q } ∷ []

-- osal_queue_send_isr and osal_queue_receive_isr
unfoldable pub send_isr : Option Queue → Item → ℕ → Option (Result × Option Queue)
send_isr h item now = send h item no_wait now (only_round now)

unfoldable pub receive_isr : Option Queue → ℕ → Option (Result × Option Item × Option Queue)
receive_isr h now = receive h no_wait now (only_round now)

-- osal_queue_peek
unfoldable pub peek : Option Queue → Result × Option Item
peek none = (not_initialized, none)
peek (some q) = if q.count == 0 then (would_block, none) else (ok, some (get_or q.buf q.head []))

-- osal_queue_count and osal_queue_free
unfoldable pub count_of : Option Queue → ℕ
count_of none = 0
count_of (some q) = q.count

unfoldable pub free_of : Option Queue → ℕ
free_of none = 0
free_of (some q) = sub_size q.capacity q.count
