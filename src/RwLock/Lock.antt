-- ===== src/RwLock/Lock.antt =====
-- What a lock call that returned did, whatever the other threads did while it waited.
use micr_osal.Common.{
  ℕ, ◌≡◌, ◌≢◌, ap, ◌⊎◌, inl, inr, List, Option, some, true, false, arith, some_of_ne_none, add_size,
}
use micr_osal.Error.{Result, ok}
use micr_osal.CondWait.{
  Turn, Reached, Late, cond_wait, cond_wait-ends, cond_wait-ne-none, returned, returned-eq_some,
}
use micr_osal.RwLock.{
  RwLock, read_blocked, write_blocked, read_enter, write_enter, fails, read_lock, write_lock,
}

fails-ne : (ticks : ℕ) (r : Result) → fails ticks r ≡ true → r ≢ ok
unfolding fails
fails-ne ticks r e = ground arith

-- A write lock that returned, whatever the other threads did while it waited, either succeeded on a
-- lock that had neither a reader nor a writer at that moment, and is its writer now, or failed and
-- left the lock as it was at that moment.
pub write_lock_alone :
    (l : RwLock) (ticks start : ℕ) (ts : List (Turn RwLock)) (r : Result) (h : Option RwLock)
    → write_lock (some l) ticks start ts ≡ some (r, h)
    → (seen : RwLock) × (l' : RwLock) × Reached ts l seen
      × (h ≡ some l')
      × (((r ≡ ok)
            × (seen.writer_active ≡ false)
            × (seen.reader_count ≡ 0)
            × (l' ≡ record seen { writer_active = true }))
          ⊎ ((r ≢ ok) × (l' ≡ seen)))
unfolding write_lock
write_lock_alone l ticks start ts r h e =
    let loop = cond_wait write_blocked write_enter (fails ticks) ticks start l ts in
    let q = returned-eq_some loop e in
    let (seen, there, ended) =
      cond_wait-ends write_blocked write_enter (fails ticks) ticks start l ts (fails-ne ticks)
        q.1 in
    elim ended [
      | inl (good, free, entry) ↦
          (seen, q.0, there, q.2, inl (good, ground arith, ground arith, entry))
      | inr bad ↦ (seen, q.0, there, q.2, inr bad)
    ]

-- A read lock that returned, whatever the other threads did while it waited, either succeeded on a
-- lock that had no writer at that moment, and is counted as one more reader, or failed and left the
-- lock as it was at that moment.
pub read_lock_shared :
    (l : RwLock) (ticks start : ℕ) (ts : List (Turn RwLock)) (r : Result) (h : Option RwLock)
    → read_lock (some l) ticks start ts ≡ some (r, h)
    → (seen : RwLock) × (l' : RwLock) × Reached ts l seen
      × (h ≡ some l')
      × (((r ≡ ok)
            × (seen.writer_active ≡ false)
            × (l' ≡ record seen { reader_count = add_size seen.reader_count 1 }))
          ⊎ ((r ≢ ok) × (l' ≡ seen)))
unfolding read_lock
read_lock_shared l ticks start ts r h e =
    let loop = cond_wait read_blocked read_enter (fails ticks) ticks start l ts in
    let q = returned-eq_some loop e in
    let x =
      cond_wait-ends read_blocked read_enter (fails ticks) ticks start l ts (fails-ne ticks) q.1 in
    (x.0, q.0, x.1, q.2, x.2)

-- A lock call with a timeout returns once it reads a clock by which its timeout has passed, for
-- reading and for writing.
pub lock_returns :
    (l : RwLock) (ticks start : ℕ) (ts : List (Turn RwLock))
    → Late ticks start ts
    → ((x : Result × Option RwLock) × (read_lock (some l) ticks start ts ≡ some x))
      × ((y : Result × Option RwLock) × (write_lock (some l) ticks start ts ≡ some y))
unfolding read_lock write_lock
lock_returns l ticks start ts late =
    let x =
      some_of_ne_none _
        (cond_wait-ne-none read_blocked read_enter (fails ticks) ticks start l ts late) in
    let y =
      some_of_ne_none _
        (cond_wait-ne-none write_blocked write_enter (fails ticks) ticks start l ts late) in
    (((x.0.0, some (x.0.1)), ap returned x.1), ((y.0.0, some (y.0.1)), ap returned y.1))
