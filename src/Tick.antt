-- ===== src/Tick.antt =====
-- include/osal/types.hpp: the tick counter of 32 bits, and timeouts measured on it.
use micr_osal.Common.{ℕ, ◌+◌, ◌-◌, ◌%◌, ◌^◌, ◌==◌, ◌&&◌, not, Bool, leb, ◌≡◌, ◌<◌, arith}

abbrev pub tick_mod : ℕ
tick_mod = 2 ^ 32

-- WAIT_FOREVER
abbrev pub wait_forever : ℕ
wait_forever = 2 ^ 32 - 1

-- NO_WAIT
abbrev pub no_wait : ℕ
no_wait = 0

-- osal_clock_ticks() - start
abbrev pub elapsed_since : ℕ → ℕ → ℕ
elapsed_since start now = (now + tick_mod - start) % tick_mod

-- A wait that is not endless is over once the elapsed ticks reach the timeout.
abbrev pub expired : ℕ → ℕ → ℕ → Bool
expired timeout start now = not (timeout == wait_forever) && leb timeout (elapsed_since start now)

-- The subtraction gives the true distance between two readings less than 2 ^ 32 ticks apart, also
-- when the counter wraps between them.
pub elapsed_since_lem :
    (start distance : ℕ)
    → start < tick_mod
    → distance < tick_mod
    → elapsed_since start ((start + distance) % tick_mod) ≡ distance
elapsed_since_lem start distance h p = omega arith
