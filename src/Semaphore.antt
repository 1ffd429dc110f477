-- ===== src/Semaphore.antt =====
-- src/bare_metal/bare_metal_backend.cpp: the bounded counting semaphore, as its holder sees it.
use micr_osal.Common.{ℕ, ◌+◌, ◌-◌, ltb, if◌then◌else◌, ◌≡◌, arith}
use micr_osal.Error.{Result, ok, overflow, would_block}

-- bm_semaphore
pub record Semaphore : Type 0 where
  pub count : ℕ
  pub max_count : ℕ

-- What osal_semaphore_create stores.
abbrev pub new_semaphore : ℕ → ℕ → Semaphore
new_semaphore init max = record { count = init; max_count = max }

-- osal_semaphore_give, when no other thread changes the count between its load and its exchange.
unfoldable pub give : Semaphore → Result × Semaphore
give s = if ltb s.count s.max_count then (ok, record s { count = s.count + 1 }) else (overflow, s)

-- osal_semaphore_try_take
unfoldable pub try_take : Semaphore → Result × Semaphore
try_take s = if ltb 0 s.count then (ok, record s { count = s.count - 1 }) else (would_block, s)

-- What is left of the count when a wait for it ends, by a token or by its timeout.
abbrev pub after_take : Semaphore → Semaphore
after_take s = if ltb 0 s.count then record s { count = s.count - 1 } else s

pub count-give :
    (s : Semaphore) → (give s).1.count ≡ (if ltb s.count s.max_count then s.count + 1 else s.count)
unfolding give
count-give s = ground arith

pub max_count-give : (s : Semaphore) → (give s).1.max_count ≡ s.max_count
unfolding give
max_count-give s = ground arith
