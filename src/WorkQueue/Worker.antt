-- ===== src/WorkQueue/Worker.antt =====
-- wq_worker_entry, step by step, beside the threads that submit, cancel and stop.
use micr_osal.Common.{
  ℕ, ◌-◌, List, [], ◌∷◌, ◌++◌, true, false, ltb, ◌==◌, ◌&&◌, if◌then◌else◌, get_or,
}
use micr_osal.Error.{is_ok}
use micr_osal.WorkQueue.{
  Entry, no_entry, WorkQueue, fresh, advance_index, stored, enqueue, discard, request_stop,
}

-- Where the worker is: before its wait for a token, with the token before it locks, with an item that
-- it is about to run, with one that it has run, and returned.
pub data Phase : Type 0 where
  waiting holding : Phase
  running : Entry → Phase
  finishing : Entry → Phase
  stopped : Phase

-- The queue, the worker, the items that it has run and those that were accepted, each oldest first.
pub record System : Type 0 where
  pub queue : WorkQueue
  pub phase : Phase
  pub executed : List Entry
  pub accepted : List Entry

abbrev pub system : WorkQueue → Phase → List Entry → List Entry → System
system wq p ex ac = record { queue = wq; phase = p; executed = ex; accepted = ac }

-- The worker's token is taken.
abbrev pub token_taken : WorkQueue → WorkQueue
token_taken wq = record wq { not_empty = record (wq.not_empty) { count = wq.not_empty.count - 1 } }

-- The entry at the front, and the stores that take it.
abbrev pub front : WorkQueue → Entry
front wq = get_or wq.ring wq.head no_entry

abbrev pub popped : WorkQueue → WorkQueue
popped wq = record wq {
  head = advance_index wq.head wq.capacity;
  count = wq.count - 1;
  worker_active = true;
  active_sequence = (front wq).sequence;
}

-- The first locked part of the worker's loop: where it goes, and the queue after.
unfoldable pub dequeue : WorkQueue → Phase × WorkQueue
dequeue wq =
    if wq.count == 0 && wq.stop
    then (stopped, wq)
    else if wq.count == 0
    then (waiting, wq)
    else (running (front wq), popped wq)

-- Its second locked part.
unfoldable pub complete : WorkQueue → Entry → WorkQueue
complete wq entry = record wq {
  worker_active = false;
  active_sequence = 0;
  completed_sequence = entry.sequence;
}

-- One step of the worker; where it is blocked it stays.
unfoldable pub work : System → System
work s = elim (s.phase) [
  | waiting ↦
      if ltb 0 s.queue.not_empty.count
      then record s { phase = holding; queue = token_taken s.queue }
      else s
  | holding ↦ let (phase', queue') = dequeue s.queue in record s { phase = phase'; queue = queue' }
  | running entry ↦ record s { phase = finishing entry; executed = s.executed ++ (entry ∷ []) }
  | finishing entry ↦ record s { phase = waiting; queue = complete s.queue entry }
  | stopped ↦ s
]

-- A thread's step: the worker's, or one that another thread makes under the mutex.
pub data Action : Type 0 where
  works : Action
  submits : ℕ → ℕ → Action
  cancels stops : Action

unfoldable pub step : System → Action → System
step s works = work s
step s (submits func arg) =
    let (r, queue') = enqueue s.queue func arg in
    if is_ok r
    then record s { queue = queue'; accepted = s.accepted ++ (stored s.queue func arg ∷ []) }
    else s
step s cancels = record s { queue = discard s.queue }
step s stops = record s { queue = request_stop s.queue }

unfoldable pub run : System → List Action → System
run s [] = s
run s (a ∷ rest) = run (step s a) rest

-- A queue as it was created, and its worker.
abbrev pub start : List Entry → ℕ → System
start ring depth = system (fresh ring depth) waiting [] []
