-- ===== src/DelayableWork/Times.antt =====
-- The halves of the times of a delayable work item.
use micr_osal.Common.{ℕ, ◌%◌, ◌^◌, ◌≡◌, arith}
use micr_osal.DelayableWork.{load_time, low_half, high_half}

-- The halves of a time, read together again, are its low 64 bits.
pub load_time-halves : (t : ℕ) → load_time (low_half t) (high_half t) ≡ t % 2 ^ 64
load_time-halves t = omega arith
