-- ===== src/DelayableWork.antt =====
-- include/osal/delayable_work.hpp: a callback that is put on a work queue when a delay has passed. The
-- calls of clients, the timer's callback and the work queue's thread are taken one access of the state word
-- or of a time at a time, in any order.
pub mod Steps
pub mod Words
pub mod Times
pub mod Owner
pub mod Due
pub mod Once
pub mod Rest
pub mod Runs
pub mod Flush
pub mod Noted
mod Tests
use micr_osal.Common.{ℕ, ◌+◌, ◌*◌, ◌/◌, ◌%◌, Bool, true, false, ◌&&◌, ◌==◌}
use micr_osal.Error.{Result, ok}

-- delayable_work::state
pub data State : Type 0 where
  idle armed queued running stopping : State

abbrev pub code : State → ℕ
code idle = 0
code armed = 1
code queued = 2
code running = 3
code stopping = 4

-- state_: three bits of state, and the other 29 bits are the generation.
pub record Word : Type 0 where
  pub generation : ℕ
  pub state : State

abbrev pub generations : ℕ
generations = 536870912

-- with_state
abbrev pub with_state : Word → State → Word
with_state w s = record w { state = s }

-- (state & ~kStateMask) + kGenerationStep, as armed
abbrev pub next_generation : Word → Word
next_generation w = record { generation = (w.generation + 1) % generations; state = armed }

-- What a compare-exchange compares.
abbrev pub same_word : Word → Word → Bool
same_word v w = (v.generation == w.generation) && (code v.state == code w.state)

-- load_time, and the halves that store_time writes
abbrev pub load_time : ℕ → ℕ → ℕ
load_time low high = high * 4294967296 + low

abbrev pub low_half : ℕ → ℕ
low_half t = t % 4294967296

abbrev pub high_half : ℕ → ℕ
high_half t = t / 4294967296 % 4294967296

-- A client's calls. A delay of zero or less is 0.
pub data Call : Type 0 where
  schedule reschedule : ℕ → Call
  cancel : Call

-- Where the client is that has the mutex; `done` is none, after a call that returned the result.
pub data Client : Type 0 where
  done : Result → Client
  entered exchanging halting : Call → Client
  beginning : ℕ → Client
  queueing submitting : Client
  noting unqueueing : Result → Client
  setting_period : ℕ → Client
  storing_1 storing_2 storing_3 storing_4 arming : ℕ → ℕ → Client
  starting : Client

-- Where the timer's callback is: the word it loaded, at which arming, and the halves it read so far.
pub data Callback : Type 0 where
  quiet : Callback
  loaded : Word → ℕ → Callback
  read_1 : Word → ℕ → ℕ → Callback
  read_2 : Word → ℕ → ℕ → ℕ → Callback
  read_3 : Word → ℕ → ℕ → ℕ → ℕ → Callback
  read_4 : Word → ℕ → ℕ → ℕ → ℕ → ℕ → Callback
  tested : Word → ℕ → Callback
  handing_over : Callback
  noting_failure unqueueing_failure : Result → Callback

-- Where the work queue's thread is in run_work.
pub data Runner : Type 0 where
  resting took calling : Runner

-- delayable_work, with its entries in the queue, the three actors, the time, and counts of what has
-- happened: armings, the time the last of them is due, delays begun, callbacks run, delays dropped.
pub record Work : Type 0 where
  pub valid : Bool
  pub word : Word
  pub start_low : ℕ
  pub start_high : ℕ
  pub delay_low : ℕ
  pub delay_high : ℕ
  pub dispatch_error : Result
  pub dispatch_failed : Bool
  pub items : ℕ
  pub client : Client
  pub callback : Callback
  pub runner : Runner
  pub now : ℕ
  pub arms : ℕ
  pub due : ℕ
  pub begun : ℕ
  pub runs : ℕ
  pub dropped : ℕ

abbrev pub fresh : Bool → ℕ → Work
fresh valid now = record {
  valid = valid;
  word = record { generation = 0; state = idle };
  start_low = 0;
  start_high = 0;
  delay_low = 0;
  delay_high = 0;
  dispatch_error = ok;
  dispatch_failed = false;
  items = 0;
  client = done ok;
  callback = quiet;
  runner = resting;
  now = now;
  arms = 0;
  due = 0;
  begun = 0;
  runs = 0;
  dropped = 0;
}

-- store_state
abbrev pub store_state : State → Work → Work
store_state v s = record s { word = with_state s.word v }

-- clear_dispatch_error_locked and set_dispatch_error
abbrev pub clear_dispatch_error : Work → Work
clear_dispatch_error s = record s { dispatch_error = ok; dispatch_failed = false }

abbrev pub set_dispatch_error : Result → Work → Work
set_dispatch_error r s = record s { dispatch_error = r; dispatch_failed = true }

abbrev pub at : Client → Work → Work
at c s = record s { client = c }
