-- ===== src/WorkQueue.antt =====
-- src/common/emulated_work_queue.inl: work items in a ring, and a worker that runs them. What a call
-- does under the mutex is one step; a function or argument is the number of its address.
pub mod Worker
pub mod Inv
pub mod Order
pub mod Progress
pub mod Drain
pub mod Rising
pub mod Flush
pub mod Pool
mod Tests
use micr_osal.Common.{
  ℕ, zero, suc, ◌+◌, ◌-◌, List, [], ◌∷◌, Option, none, some, Bool, true, false, ltb, leb, ◌==◌, not,
  if◌then◌else◌, get_or, set, replicate, add_size, sub_size,
}
use micr_osal.Error.{Result, ok, overflow, not_initialized, invalid_argument, not_supported}
use micr_osal.Semaphore.{Semaphore, new_semaphore, give, try_take}
use micr_osal.CondWait.{Turn, cond_wait, returned, but_timeout}

-- emulated_wq_entry
pub record Entry : Type 0 where
  pub func : ℕ
  pub arg : ℕ
  pub sequence : ℕ

abbrev pub no_entry : Entry
no_entry = record { func = 0; arg = 0; sequence = 0 }

-- emulated_wq_obj
pub record WorkQueue : Type 0 where
  pub ring : List Entry
  pub capacity : ℕ
  pub head : ℕ
  pub tail : ℕ
  pub count : ℕ
  pub not_empty : Semaphore
  pub submitted_sequence : ℕ
  pub completed_sequence : ℕ
  pub active_sequence : ℕ
  pub stop : Bool
  pub worker_active : Bool

-- OSAL_EMULATED_WQ_MAX_DEPTH
abbrev pub max_depth : ℕ
max_depth = 32

-- What osal_work_queue_create stores in a slot whose ring is `ring`.
abbrev pub fresh : List Entry → ℕ → WorkQueue
fresh ring depth = record {
  ring = ring;
  capacity = depth;
  head = 0;
  tail = 0;
  count = 0;
  not_empty = new_semaphore 0 (depth + 1);
  submitted_sequence = 0;
  completed_sequence = 0;
  active_sequence = 0;
  stop = false;
  worker_active = false;
}

-- emu_wq_advance_index
abbrev pub advance_index : ℕ → ℕ → ℕ
advance_index index capacity = let next = add_size index 1 in if next == capacity then 0 else next

-- emu_wq_retreat_index
abbrev pub retreat_index : ℕ → ℕ → ℕ
retreat_index index capacity = if index == 0 then sub_size capacity 1 else index - 1

-- The entry that a submission stores.
abbrev pub stored : WorkQueue → ℕ → ℕ → Entry
stored wq func arg = record { func = func; arg = arg; sequence = add_size wq.submitted_sequence 1 }

-- The stores of a submission that is accepted.
abbrev pub pushed : WorkQueue → ℕ → ℕ → WorkQueue
pushed wq func arg = record wq {
  submitted_sequence = add_size wq.submitted_sequence 1;
  ring = set wq.ring wq.tail (stored wq func arg);
  tail = advance_index wq.tail wq.capacity;
  count = wq.count + 1;
  not_empty = (give wq.not_empty).1;
}

-- What osal_work_queue_submit does under the mutex.
unfoldable pub enqueue : WorkQueue → ℕ → ℕ → Result × WorkQueue
enqueue wq func arg = if leb wq.capacity wq.count then (overflow, wq) else (ok, pushed wq func arg)

-- osal_work_queue_submit; a function is `none` when null.
unfoldable pub submit : Option WorkQueue → Option ℕ → ℕ → Result × Option WorkQueue
submit none func arg = (not_initialized, none)
submit (some wq) none arg = (invalid_argument, some wq)
submit (some wq) (some func) arg = let (r, wq') = enqueue wq func arg in (r, some wq')

-- osal_work_queue_submit_from_isr
unfoldable pub submit_from_isr : Option WorkQueue → Option ℕ → ℕ → Result × Option WorkQueue
submit_from_isr h func arg = (not_supported, h)

-- The loop that takes `drained` tokens back.
unfoldable pub drain : ℕ → Semaphore → Semaphore
drain zero s = s
drain (suc n) s = drain n (try_take s).1

-- What osal_work_queue_cancel_all does under the mutex.
unfoldable pub discard : WorkQueue → WorkQueue
discard wq = record wq { head = 0; tail = 0; count = 0; not_empty = drain wq.count wq.not_empty }

-- osal_work_queue_cancel_all
unfoldable pub cancel_all : Option WorkQueue → Result × Option WorkQueue
cancel_all none = (not_initialized, none)
cancel_all (some wq) = (ok, some (discard wq))

-- osal_work_queue_pending
unfoldable pub pending : Option WorkQueue → ℕ
pending none = 0
pending (some wq) = wq.count

-- What osal_work_queue_destroy does under the mutex, before it joins the worker.
unfoldable pub request_stop : WorkQueue → WorkQueue
request_stop wq = record wq { stop = true; not_empty = (give wq.not_empty).1 }

-- The sequence that a flush waits for.
unfoldable pub flush_target : WorkQueue → ℕ
flush_target wq =
    let last_pending = get_or wq.ring (retreat_index wq.tail wq.capacity) no_entry in
    if not (wq.count == 0)
    then last_pending.sequence
    else if wq.worker_active
    then wq.active_sequence
    else wq.completed_sequence

-- The test that a flush for `target` waits on.
abbrev pub unfinished : ℕ → WorkQueue → Bool
unfinished target wq = ltb wq.completed_sequence target

-- osal_work_queue_flush
unfoldable pub flush :
    Option WorkQueue → ℕ → ℕ → List (Turn WorkQueue) → Option (Result × Option WorkQueue)
flush none ticks start ts = some (not_initialized, none)
flush (some wq) ticks start ts =
    returned (cond_wait (unfinished (flush_target wq)) (λ x. x) but_timeout ticks start wq ts)
