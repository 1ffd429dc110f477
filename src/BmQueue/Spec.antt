-- ===== src/BmQueue/Spec.antt =====
-- Calls that do not wait at a bare-metal queue, and what a client may rely on: the replies of a bounded
-- first-in first-out queue.
use micr_osal.Common.{ℕ, ◌-◌, List, [], ◌∷◌, Option, none, some, Bool, length, if◌then◌else◌}
use micr_osal.Error.{Result, ok, timeout, would_block}
use micr_osal.Fifo
use micr_osal.BmQueue.{Item, Queue, send_isr, receive_isr, peek, count_of, free_of}

-- A call; the number is the clock that it reads.
pub data Call : Type 0 where
  sends : Item → ℕ → Call
  receives : ℕ → Call
  peeks asks : Call

pub data Reply : Type 0 where
  sent : Result → Reply
  received : Result → Option Item → Reply
  sizes : ℕ → ℕ → Reply
  nothing_yet : Reply

-- The source's calls.
abbrev pub after_send : Option (Result × Option Queue) → Option Queue → Reply × Option Queue
after_send none h = (nothing_yet, h)
after_send (some (r, h')) h = (sent r, h')

abbrev pub after_receive :
    Option (Result × Option Item × Option Queue) → Option Queue → Reply × Option Queue
after_receive none h = (nothing_yet, h)
after_receive (some (r, item, h')) h = (received r item, h')

unfoldable pub step : Option Queue → Call → Reply × Option Queue
step h (sends item now) = after_send (send_isr h item now) h
step h (receives now) = after_receive (receive_isr h now) h
step h peeks = let (r, item) = peek h in (received r item, h)
step h asks = (sizes (count_of h) (free_of h), h)

unfoldable pub run : Option Queue → List Call → List Reply
run h [] = []
run h (c ∷ cs) = let (reply, h') = step h c in reply ∷ run h' cs

-- The bounded queue.
abbrev pub sent_reply : Bool → Result
sent_reply b = if b then ok else would_block

unfoldable pub abstract_step : ℕ → List Item → Call → Reply × List Item
abstract_step capacity q (sends item now) =
    let (b, q') = Fifo.push capacity q item in (sent (sent_reply b), q')
abstract_step capacity q (receives now) =
    let (item, q') = Fifo.pop q in
    (elim item [ none ↦ received timeout none | some x ↦ received ok (some x) ], q')
abstract_step capacity q peeks =
    (elim (Fifo.pop q).0 [ none ↦ received would_block none | some x ↦ received ok (some x) ], q)
abstract_step capacity q asks = (sizes (length q) (capacity - length q), q)

unfoldable pub abstract_run : ℕ → List Item → List Call → List Reply
abstract_run capacity q [] = []
abstract_run capacity q (c ∷ cs) =
    let (reply, q') = abstract_step capacity q c in reply ∷ abstract_run capacity q' cs
