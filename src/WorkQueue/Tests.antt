-- ===== src/WorkQueue/Tests.antt =====
-- A work queue in use, and the theorems at concrete inputs.
use micr_osal.Common.{
  sym, ◌∙◌, ◌+◌, ◌*◌, ◌≡◌, ◌≢◌, refl, ◌++◌, List, [], ◌∷◌, none, some, true, false, arith,
  replicate, Sublist,
}
use micr_osal.Error.{ok, timeout, out_of_resources}
use micr_osal.Semaphore.{give, try_take}
use micr_osal.CondWait.{Turn, cond_wait}
use micr_osal.Creation.{Objects, create_in, create_all}
use micr_osal.Slots
use micr_osal.WorkQueue.{
  Entry, no_entry, WorkQueue, enqueue, discard, drain, request_stop, flush_target, unfinished,
  flush,
}
use micr_osal.WorkQueue.Worker.{
  waiting, stopped, dequeue, complete, work, Action, works, submits, cancels, stops, step, run,
  start,
}
use micr_osal.WorkQueue.Inv.{queued}
use micr_osal.WorkQueue.Order.{hand, live, run_in_order, run_keeps_all}
use micr_osal.WorkQueue.Drain.{Drained, worker_drains, no_lost_wakeup}
use micr_osal.WorkQueue.Rising.{UpTo, Above}
use micr_osal.WorkQueue.Flush.{open_items, flush_frontier}
use micr_osal.WorkQueue.Pool.{no_queue, create}

abbrev storage : List Entry
storage = replicate 32 no_entry

-- Two submissions, the first item is taken, both others submit and the waiting ones are cancelled.
abbrev script : List Action
script = submits 7 1 ∷ submits 8 2 ∷ works ∷ works ∷ cancels ∷ submits 9 3 ∷ works ∷ works ∷ []

abbrev first_and_third : List Entry
first_and_third =
    record { func = 7; arg = 1; sequence = 1 } ∷ record { func = 9; arg = 3; sequence = 3 } ∷ []

run-script : live (run (start storage 2) script) ≡ first_and_third
unfolding run step work enqueue give dequeue discard drain try_take complete
run-script = refl

run_in_order_example :
    let s = run (start storage 2) script in
    Sublist (s.executed ++ (hand s.phase ++ queued s.queue)) s.accepted
run_in_order_example = run_in_order storage 2 script (omega arith) (omega arith) (omega arith)

-- A third submission to a queue of two, before and after the worker takes an item.
abbrev filled : List Action
filled =
    submits 7 1
    ∷ submits 8 2
    ∷ submits 9 3
    ∷ works
    ∷ works
    ∷ submits 9 3
    ∷ works
    ∷ works
    ∷ stops
    ∷ []

run_keeps_all_example :
    let s = run (start storage 2) filled in
    s.executed ++ (hand s.phase ++ queued s.queue) ≡ s.accepted
run_keeps_all_example = run_keeps_all storage 2 filled (omega arith) (omega arith) (omega arith) (
  (λ x. x),
  (
    (λ x. x),
    ((λ x. x), ((λ x. x), ((λ x. x), ((λ x. x), ((λ x. x), ((λ x. x), ((λ x. x), tt))))))),
  ),
)

filled-phase : (run (start storage 2) filled).phase ≡ waiting
unfolding run step work enqueue give dequeue complete request_stop
filled-phase = refl

waiting-ne : waiting ≢ stopped
waiting-ne e = cc

worker_drains_example : let s = run (start storage 2) filled in Drained s (s.queue.count * 4 + 4)
worker_drains_example =
    worker_drains storage 2 filled (omega arith) (omega arith) (omega arith)
      (λ e. waiting-ne (sym filled-phase ∙ e))

-- The worker has run all that was submitted, and waits.
abbrev idle : List Action
idle = submits 7 1 ∷ works ∷ works ∷ works ∷ works ∷ []

idle-phase : (run (start storage 2) idle).phase ≡ waiting
unfolding run step work enqueue give dequeue complete
idle-phase = refl

idle-tokens : (run (start storage 2) idle).queue.not_empty.count ≡ 0
unfolding run step work enqueue give dequeue complete
idle-tokens = refl

no_lost_wakeup_example :
    let wq = (run (start storage 2) idle).queue in (wq.count ≡ 0) × (wq.stop ≡ false)
no_lost_wakeup_example =
    no_lost_wakeup storage 2 idle (omega arith) (omega arith) (omega arith) idle-phase idle-tokens

-- A flush that finds two items, and the worker that runs them while a third is submitted.
abbrev before : List Action
before = submits 7 1 ∷ submits 8 2 ∷ []

abbrev after : List Action
after = works ∷ works ∷ submits 9 3 ∷ works ∷ works ∷ works ∷ works ∷ works ∷ works ∷ []

flush-done :
    unfinished
      (flush_target (run (start storage 2) before).queue)
      (run (run (start storage 2) before) after).queue
    ≡ false
unfolding run step work enqueue give dequeue complete flush_target
flush-done = refl

flush_frontier_example :
    let s = run (start storage 2) before in
    let target = flush_target s.queue in
    UpTo target (open_items s) × Above target (open_items (run s after))
flush_frontier_example =
    flush_frontier storage 2 before after (omega arith) (omega arith) (omega arith) (omega arith)
      flush-done

-- A flush that waits twice: the worker is half way through, then done.
abbrev one_open : WorkQueue
one_open = (run (start storage 2) before).queue

abbrev half_way : WorkQueue
half_way = record one_open { completed_sequence = 1 }

abbrev all_done : WorkQueue
all_done = record one_open { completed_sequence = 2; count = 0 }

abbrev waits : List (Turn WorkQueue)
waits =
    record { now = 101; others = λ wq. half_way; answer = ok }
    ∷ record { now = 103; others = λ wq. all_done; answer = timeout }
    ∷ []

flush-one_open : flush (some one_open) 5 100 waits ≡ some (ok, some all_done)
unfolding flush cond_wait flush_target run step enqueue give
flush-one_open = refl

abbrev slots : Objects WorkQueue
slots = record { objects = no_queue ∷ no_queue ∷ []; used = true ∷ false ∷ []; live = 4 }

-- The thread cannot be created.
create-no_thread : create slots true 8 (true, true, true, false) ≡ (
  out_of_resources,
  none,
  record slots {
    objects =
        no_queue
        ∷ record no_queue { capacity = 8; not_empty = record { count = 0; max_count = 9 } }
        ∷ [];
  },
)
unfolding create create_in create_all Slots.acquire Slots.release
create-no_thread = refl

abbrev created : Objects WorkQueue
created = record {
  objects =
      no_queue
      ∷ record no_queue { capacity = 8; not_empty = record { count = 0; max_count = 9 } }
      ∷ [];
  used = true ∷ true ∷ [];
  live = 8;
}

create-slots : create slots true 8 (true, true, true, true) ≡ (ok, some 1, created)
unfolding create create_in create_all Slots.acquire Slots.release
create-slots = refl
