-- ===== src/BmTimer.antt =====
-- src/bare_metal/bare_metal_backend.cpp: software timers that are advanced at each tick.
pub mod Periods
mod Tests
use micr_osal.Common.{
  ℕ, zero, suc, ◌+◌, ◌%◌, ◌^◌, List, [], ◌∷◌, Option, none, some, Bool, true, false, not, ◌||◌, leb,
  if◌then◌else◌,
}
use micr_osal.Error.{Result, ok, not_initialized}

-- bm_timer, but for its callback, which is an argument where it is called
pub record Timer : Type 0 where
  pub deadline : ℕ
  pub period : ℕ
  pub auto_reload : Bool
  pub active : Bool
  pub valid : Bool

-- What osal_timer_create stores.
abbrev pub fresh : ℕ → Bool → Timer
fresh period auto_reload = record {
  deadline = 0;
  period = period;
  auto_reload = auto_reload;
  active = false;
  valid = true;
}

-- The tick at which a period that begins now ends, on the counter of 64 bits.
abbrev pub due : ℕ → ℕ → ℕ
due now period = (now + period) % 2 ^ 64

abbrev pub armed : Timer → ℕ → Timer
armed t now = record t { deadline = due now t.period; active = true }

abbrev pub disarmed : Timer → Timer
disarmed t = record t { active = false }

-- osal_timer_start, osal_timer_stop, osal_timer_reset and osal_timer_set_period; `now` is what
-- bm_ticks_now gives.
unfoldable pub start : Option Timer → ℕ → Result × Option Timer
start none now = (not_initialized, none)
start (some t) now = (ok, some (armed t now))

unfoldable pub stop : Option Timer → Result × Option Timer
stop none = (not_initialized, none)
stop (some t) = (ok, some (disarmed t))

unfoldable pub reset : Option Timer → ℕ → Result × Option Timer
unfolding start stop
reset h now = start (stop h).1 now

unfoldable pub set_period : Option Timer → ℕ → ℕ → Result × Option Timer
set_period none now p = (not_initialized, none)
set_period (some t) now p = (ok, some (record t { period = p; deadline = due now p }))

-- osal_timer_is_active
unfoldable pub is_active : Option Timer → Bool
is_active none = false
is_active (some t) = t.active

-- The body of bm_advance_timers for one timer: whether it calls back, and the timer after. `callback` is
-- what its callback does to it; no tick comes while it runs, so that the second bm_ticks_now gives `now`
-- too.
unfoldable pub advance : ℕ → (Timer → Timer) → Timer → Bool × Timer
advance now callback t =
    let after = callback t in
    if not t.valid || not t.active
    then (false, t)
    else if leb t.deadline now
    then (
      true,
      if after.auto_reload
          then record after { deadline = due now after.period }
          else disarmed after,
    )
    else (false, t)

-- bm_advance_timers
unfoldable pub advance_all : ℕ → (Timer → Timer) → List Timer → List Timer
advance_all now callback [] = []
advance_all now callback (t ∷ ts) = (advance now callback t).1 ∷ advance_all now callback ts

-- osal_baremetal_tick_with_timers `n` times from `now` on, as one timer sees it: how often it calls back,
-- and the timer after.
unfoldable pub ticks : ℕ → ℕ → (Timer → Timer) → Timer → ℕ × Timer
ticks zero now callback t = (0, t)
ticks (suc n) now callback t =
    let now' = (now + 1) % 2 ^ 64 in
    let (called, t') = advance now' callback t in
    let (rest, t'') = ticks n now' callback t' in ((if called then 1 else 0) + rest, t'')
