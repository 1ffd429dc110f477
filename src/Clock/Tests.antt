-- ===== src/Clock/Tests.antt =====
-- Conversions at concrete inputs, and the theorems there.
use micr_osal.Common.{◌+◌, ◌*◌, ◌≤◌, ◌<◌, ◌≡◌, ◌⊎◌, refl, arith, ◌==◌, if◌then◌else◌, min}
use micr_osal.Tick.{wait_forever, no_wait}
use micr_osal.Clock.{
  pos, negsuc, k_max, known_period, ms_to_ticks, ticks_to_ms, int_max, decode, to_poll_timeout_ms,
  Timespec, to_abs_timespec,
}
use micr_osal.Clock.Ticks.{ceiling, ms_to_ticks_exact, ms_round_trip}
use micr_osal.Clock.Adapter.{nanoseconds, meant, timeouts_exact}

-- Ticks of 10 milliseconds, and no known period.
ms_to_ticks-tests :
    (ms_to_ticks 10000 (pos 25) ≡ 3)
    × (ms_to_ticks 10000 (negsuc 4) ≡ no_wait)
    × (ms_to_ticks 0 (pos 25) ≡ 25)
    × (ms_to_ticks 1 (pos 4294968) ≡ k_max)
unfolding ms_to_ticks known_period
ms_to_ticks-tests = (refl, refl, refl, refl)

ms_to_ticks_exact_example : ms_to_ticks 10000 (pos 25) ≡ min k_max (ceiling (25 * 1000) 10000)
ms_to_ticks_exact_example = ms_to_ticks_exact 10000 25 (omega arith) (omega arith)

ms_round_trip_example :
    let back = ticks_to_ms 10000 (ms_to_ticks 10000 (pos 25)) in
    (25 ≤ back) × (back * 1000 < 25 * 1000 + 10000)
ms_round_trip_example = ms_round_trip 10000 25 (omega arith) (omega arith) (omega arith)

abbrev clock : Timespec
clock = record { tv_sec = 5; tv_nsec = 900000000 }

-- The nanoseconds carry, and the seconds saturate.
to_abs_timespec-tests :
    (to_abs_timespec 100 clock 1250 ≡ record { tv_sec = 7; tv_nsec = 150000000 })
    × (to_abs_timespec 6 clock 1250 ≡ record { tv_sec = 6; tv_nsec = 999999999 })
    × (to_poll_timeout_ms wait_forever ≡ negsuc 0)
unfolding to_abs_timespec decode to_poll_timeout_ms
to_abs_timespec-tests = (refl, refl, refl)

timeouts_exact_example :
    let t = to_abs_timespec 6 clock 1250 in
    let exact = nanoseconds clock + meant 1250 * 1000000 in
    (to_poll_timeout_ms 1250 ≡ (if 1250 == wait_forever then negsuc 0 else pos (min int_max 1250)))
    × (t.tv_nsec < 1000000000)
    × (t.tv_sec ≤ 6)
    × ((nanoseconds t ≡ exact)
        ⊎ ((t.tv_sec ≡ 6) × (t.tv_nsec ≡ 999999999) × (nanoseconds t < exact)))
timeouts_exact_example = timeouts_exact 6 1250 clock (omega arith) (omega arith) (omega arith)
