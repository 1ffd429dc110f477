-- ===== src/Clock/Adapter.antt =====
-- The timeouts that a kernel's calls take against the ticks they stand for.
use micr_osal.Common.{ℕ, ◌+◌, ◌*◌, ◌^◌, ◌≤◌, ◌<◌, ◌≡◌, ◌⊎◌, arith, ◌==◌, if◌then◌else◌, min}
use micr_osal.Tick.{wait_forever, tick_mod}
use micr_osal.Clock.{
  pos, negsuc, int_max, decode, finite_ms, to_poll_timeout_ms, Timespec, to_abs_timespec,
}

-- A time in nanoseconds.
abbrev pub nanoseconds : Timespec → ℕ
nanoseconds ts = ts.tv_sec * 1000000000 + ts.tv_nsec

added :
    (max_seconds ms : ℕ) (ts : Timespec) (ticks : ℕ)
    → finite_ms (decode ticks) ≡ ms
    → ms < 2 ^ 32
    → ts.tv_nsec < 1000000000
    → ts.tv_sec ≤ max_seconds
    → let t = to_abs_timespec max_seconds ts ticks in
      let exact = nanoseconds ts + ms * 1000000 in
      (t.tv_nsec < 1000000000)
      × (t.tv_sec ≤ max_seconds)
      × ((nanoseconds t ≡ exact)
          ⊎ ((t.tv_sec ≡ max_seconds) × (t.tv_nsec ≡ 999999999) × (nanoseconds t < exact)))
unfolding to_abs_timespec
added max_seconds ms ts ticks e h v w = rw e (ground arith)

-- The milliseconds that a timeout stands for: none when it is not to wait or to wait forever.
abbrev pub meant : ℕ → ℕ
meant ticks = if ticks == wait_forever then 0 else ticks

finite_ms-decode : (ticks : ℕ) → finite_ms (decode ticks) ≡ meant ticks
unfolding decode
finite_ms-decode ticks = ground arith

poll :
    (ticks : ℕ)
    → to_poll_timeout_ms ticks
      ≡ (if ticks == wait_forever then negsuc 0 else pos (min int_max ticks))
unfolding to_poll_timeout_ms decode
poll ticks = ground arith

-- For a timeout of fewer than 2 ^ 32 milliseconds and a clock whose nanoseconds are below 10 ^ 9 and
-- whose seconds fit in a time_t: the timeout for poll is -1 when it is to wait forever and otherwise the
-- milliseconds, at most INT_MAX; the absolute time has its nanoseconds below 10 ^ 9 and its seconds in
-- a time_t, and is exactly the clock's time and the milliseconds together, or, only where that sum is
-- later, the last time that a time_t can hold.
pub timeouts_exact :
    (max_seconds ticks : ℕ) (ts : Timespec)
    → ticks < tick_mod
    → ts.tv_nsec < 1000000000
    → ts.tv_sec ≤ max_seconds
    → let t = to_abs_timespec max_seconds ts ticks in
      let exact = nanoseconds ts + meant ticks * 1000000 in
      (to_poll_timeout_ms ticks
        ≡ (if ticks == wait_forever then negsuc 0 else pos (min int_max ticks)))
      × (t.tv_nsec < 1000000000)
      × (t.tv_sec ≤ max_seconds)
      × ((nanoseconds t ≡ exact)
          ⊎ ((t.tv_sec ≡ max_seconds) × (t.tv_nsec ≡ 999999999) × (nanoseconds t < exact)))
timeouts_exact max_seconds ticks ts small v w =
    let at_most : meant ticks < 2 ^ 32 = ground arith in
    let a = added max_seconds (meant ticks) ts ticks (finite_ms-decode ticks) at_most v w in
    (poll ticks, a.0, a.1, a.2)
