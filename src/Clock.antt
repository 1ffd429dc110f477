-- ===== src/Clock.antt =====
-- include/osal/clock.hpp: conversions between milliseconds and ticks; and
-- src/common/backend_timeout_adapter.hpp: timeouts as a kernel's calls take them.
pub mod Ticks
pub mod Adapter
mod Tests
use micr_osal.Common.{
  ℕ, zero, suc, ◌+◌, ◌-◌, ◌*◌, ◌/◌, ◌%◌, ◌^◌, Bool, ltb, leb, ◌==◌, if◌then◌else◌,
}
use micr_osal.Tick.{wait_forever, no_wait, tick_mod}

pub data ℤ : Type 0 where
  pos : ℕ → ℤ
  negsuc : ℕ → ℤ

-- std::uint64_t
abbrev pub u64 : ℕ → ℕ
u64 x = x % 2 ^ 64

abbrev pub sub_u64 : ℕ → ℕ → ℕ
sub_u64 x y = u64 (x + 2 ^ 64 - y)

-- The longest finite timeout.
abbrev pub k_max : ℕ
k_max = wait_forever - 1

-- The ticks of the milliseconds that are left over.
abbrev pub remainder_ticks : ℕ → ℕ → ℕ
remainder_ticks period_us milliseconds_remainder =
    sub_u64 (u64 (u64 (milliseconds_remainder * 1000) + period_us)) 1 / period_us

-- Its result, before the cast, for a clock whose period is known.
unfoldable pub known_period : ℕ → ℕ → ℕ
known_period period_us raw =
    let quotient = raw / period_us in
    let rest = remainder_ticks period_us (raw % period_us) in
    let ticks = u64 (u64 (quotient * 1000) + rest) in
    if ltb (sub_u64 k_max rest / 1000) quotient
    then k_max
    else if ltb ticks k_max
    then ticks
    else k_max

-- clock_utils::ms_to_ticks, with what osal_clock_tick_period_us gives.
unfoldable pub ms_to_ticks : ℕ → ℤ → ℕ
ms_to_ticks period_us (negsuc n) = no_wait
ms_to_ticks period_us (pos n) =
    if n == 0
    then no_wait
    else if period_us == 0
    then (if ltb n k_max then n else k_max) % tick_mod
    else known_period period_us n % tick_mod

-- clock_utils::ticks_to_ms
unfoldable pub ticks_to_ms : ℕ → ℕ → ℕ
ticks_to_ms period_us ticks = u64 (ticks * period_us) / 1000

-- timeout_value, whose fields the finite kind alone uses.
pub data TimeoutValue : Type 0 where
  no_waiting waiting_forever : TimeoutValue
  finite : ℕ → TimeoutValue

-- backend_timeout_adapter::decode
unfoldable pub decode : ℕ → TimeoutValue
decode ticks =
    if ticks == no_wait
    then no_waiting
    else if ticks == wait_forever
    then waiting_forever
    else finite ticks

-- INT_MAX of a 32-bit int
abbrev pub int_max : ℕ
int_max = 2 ^ 31 - 1

-- backend_timeout_adapter::to_poll_timeout_ms
unfoldable pub to_poll_timeout_ms : ℕ → ℤ
to_poll_timeout_ms ticks = elim (decode ticks) [
  | no_waiting ↦ pos 0
  | waiting_forever ↦ negsuc 0
  | finite ms ↦ pos (if ltb int_max ms then int_max else ms)
]

-- timespec, of a clock that does not go back before its epoch
pub record Timespec : Type 0 where
  pub tv_sec : ℕ
  pub tv_nsec : ℕ

-- The milliseconds that a timeout adds.
abbrev pub finite_ms : TimeoutValue → ℕ
finite_ms no_waiting = 0
finite_ms waiting_forever = 0
finite_ms (finite ms) = ms

-- backend_timeout_adapter::to_abs_timespec; `max_seconds` is the largest time_t, `ts` what
-- clock_gettime gives.
unfoldable pub to_abs_timespec : ℕ → Timespec → ℕ → Timespec
to_abs_timespec max_seconds ts ticks =
    let ms = finite_ms (decode ticks) in
    let sum = ts.tv_nsec + u64 (ms % 1000 * 1000000) in
    let carry = leb 1000000000 sum in
    let seconds = u64 (ms / 1000 + (if carry then 1 else 0)) in
    let nsec = if carry then sum - 1000000000 else sum in
    if ltb (max_seconds - ts.tv_sec) seconds
    then record { tv_sec = max_seconds; tv_nsec = 999999999 }
    else record { tv_sec = ts.tv_sec + seconds; tv_nsec = nsec }
