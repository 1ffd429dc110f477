-- ===== src/BmTimer/Tests.antt =====
-- Software timers in use, and the theorem at concrete inputs.
use micr_osal.Common.{◌/◌, ◌≡◌, refl, true, false, arith}
use micr_osal.BmTimer.{fresh, armed, advance, ticks}
use micr_osal.BmTimer.Periods.{periodic_calls}

periodic_calls_example : (ticks 10 100 (λ t. t) (armed (fresh 3 true) 100)).0 ≡ 10 / 3
periodic_calls_example = periodic_calls 10 100 3 (omega arith) (omega arith)

-- A one-shot timer calls back once.
one_shot-ticks : (ticks 10 100 (λ t. t) (armed (fresh 3 false) 100)).0 ≡ 1
unfolding ticks advance
one_shot-ticks = refl

-- A one-shot timer whose callback starts it again does not run again.
restarted-ticks : (ticks 10 100 (λ t. armed t 103) (armed (fresh 3 false) 100)).0 ≡ 1
unfolding ticks advance
restarted-ticks = refl
