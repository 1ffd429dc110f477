-- ===== src/RwLock.antt =====
-- src/common/emulated_rwlock.inl: a lock for many readers or one writer, over a mutex and a condition
-- variable. What a call does under the mutex is one step; a handle that is null or uninitialised is
-- `none`.
pub mod Lock
pub mod Clients
pub mod Pool
mod Tests
use micr_osal.Common.{
  ℕ, ◌-◌, List, [], ◌∷◌, Option, none, some, Bool, true, false, ltb, leb, ◌==◌, ◌&&◌, ◌||◌, not,
  if◌then◌else◌, add_size,
}
use micr_osal.Error.{Result, is_ok, timeout, not_initialized, invalid_argument, ok}
use micr_osal.Tick.{wait_forever}
use micr_osal.CondWait.{Turn, cond_wait, returned, any_failure, but_timeout}

-- emulated_rwlock_obj
pub record RwLock : Type 0 where
  pub reader_count : ℕ
  pub writer_active : Bool

-- What a creation stores.
abbrev pub unlocked : RwLock
unlocked = record { reader_count = 0; writer_active = false }

-- The test that a reader or a writer waits on, and the store when it passes.
abbrev pub read_blocked : RwLock → Bool
read_blocked rw = rw.writer_active

abbrev pub write_blocked : RwLock → Bool
write_blocked rw = rw.writer_active || ltb 0 rw.reader_count

abbrev pub read_enter : RwLock → RwLock
read_enter rw = record rw { reader_count = add_size rw.reader_count 1 }

abbrev pub write_enter : RwLock → RwLock
write_enter rw = record rw { writer_active = true }

-- Whether an answer of the condition variable ends the call: any failure when the wait is endless, any
-- but a timeout when it is timed.
unfoldable pub fails : ℕ → Result → Bool
fails ticks answer = if ticks == wait_forever then any_failure answer else but_timeout answer

-- osal_rwlock_read_lock
unfoldable pub read_lock :
    Option RwLock → ℕ → ℕ → List (Turn RwLock) → Option (Result × Option RwLock)
read_lock none ticks start ts = some (not_initialized, none)
read_lock (some rw) ticks start ts =
    returned (cond_wait read_blocked read_enter (fails ticks) ticks start rw ts)

-- osal_rwlock_write_lock
unfoldable pub write_lock :
    Option RwLock → ℕ → ℕ → List (Turn RwLock) → Option (Result × Option RwLock)
write_lock none ticks start ts = some (not_initialized, none)
write_lock (some rw) ticks start ts =
    returned (cond_wait write_blocked write_enter (fails ticks) ticks start rw ts)

-- osal_rwlock_read_unlock
unfoldable pub read_unlock : Option RwLock → Result × Option RwLock
read_unlock none = (not_initialized, none)
read_unlock (some rw) =
    if rw.reader_count == 0
    then (invalid_argument, some rw)
    else (ok, some (record rw { reader_count = rw.reader_count - 1 }))

-- osal_rwlock_write_unlock
unfoldable pub write_unlock : Option RwLock → Result × Option RwLock
write_unlock none = (not_initialized, none)
write_unlock (some rw) =
    if not rw.writer_active
    then (invalid_argument, some rw)
    else (ok, some (record rw { writer_active = false }))
