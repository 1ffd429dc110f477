-- ===== src/RwLock/Tests.antt =====
-- A lock in use, and the theorems at concrete inputs.
use micr_osal.RwLock.Pool.{Pool, create, create_in}
use micr_osal.Slots
use micr_osal.RwLock.{unlocked}
use micr_osal.Common.{
  ◌-◌, ℕ, ◌≤◌, ◌≡◌, ◌⊎◌, refl, not, ◌==◌, List, [], ◌∷◌, some, true, false, arith,
}
use micr_osal.Error.{ok, timeout}
use micr_osal.RwLock.{RwLock, read_lock, write_lock, read_unlock, fails}
use micr_osal.CondWait.{Turn, cond_wait}
use micr_osal.RwLock.Clients.{
  Op, read_locks, write_locks, read_unlocks, run, step, act, start, tally, is_reading, is_writing,
  run_exclusive,
}

abbrev two_readers : RwLock
two_readers = record { reader_count = 2; writer_active = false }

-- A reader leaves at each wait.
abbrev leaves : RwLock → RwLock
leaves l = (record l { reader_count = l.reader_count - 1 })

abbrev turns : List (Turn RwLock)
turns =
    record { now = 101; others = leaves; answer = ok }
    ∷ record { now = 103; others = leaves; answer = timeout }
    ∷ []

abbrev written : RwLock
written = record { reader_count = 0; writer_active = true }

write_lock-two_readers : write_lock (some two_readers) 5 100 turns ≡ some (ok, some written)
unfolding write_lock cond_wait fails
write_lock-two_readers = refl

abbrev three_readers : RwLock
three_readers = record { reader_count = 3; writer_active = false }

read_lock-two_readers : read_lock (some two_readers) 5 100 turns ≡ some (ok, some three_readers)
unfolding read_lock cond_wait fails
read_lock-two_readers = refl

-- Thread 0 reads, thread 1 waits to write until it is done, and thread 2 waits to read.
abbrev script : List (ℕ × Op)
script =
    (0, read_locks) ∷ (1, write_locks) ∷ (0, read_unlocks) ∷ (1, write_locks) ∷ (2, read_locks) ∷ []

run_exclusive_example :
    let s = run (start 3) script in
    let readers = tally is_reading s.threads in
    let writers = tally is_writing s.threads in
    (writers ≤ 1)
    × ((writers ≡ 0) ⊎ (readers ≡ 0))
    × (s.lock.reader_count ≡ readers)
    × (s.lock.writer_active ≡ not (writers == 0))
run_exclusive_example = run_exclusive 3 script (omega arith)

run-script : tally is_writing (run (start 3) script).threads ≡ 1
unfolding run step act read_unlock
run-script = refl

-- Two slots, the first of them taken.
abbrev slots : Pool
slots = record {
  objects = two_readers ∷ two_readers ∷ [];
  used = true ∷ false ∷ [];
  mutexes = 1;
  condvars = 1;
}

abbrev created : Pool
created = record {
  objects = two_readers ∷ unlocked ∷ [];
  used = true ∷ true ∷ [];
  mutexes = 2;
  condvars = 2;
}

create-slots : create slots true true true ≡ (ok, some 1, created)
unfolding create create_in Slots.acquire
create-slots = refl
