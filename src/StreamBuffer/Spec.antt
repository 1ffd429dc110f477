-- ===== src/StreamBuffer/Spec.antt =====
-- What a client of a stream buffer may rely on when its calls do not block.
use micr_osal.Common.{
  ℕ, ◌+◌, ◌-◌, min, List, [], ◌∷◌, ◌++◌, ltb, leb, ◌==◌, ◌||◌, if◌then◌else◌, length, take, drop,
}
use micr_osal.Error.{Result, ok, timeout, invalid_argument}

-- A client's calls, and what each gives back.
pub data Call : Type 0 where
  sends : List ℕ → Call
  receives : ℕ → Call
  resets asks : Call

pub data Reply : Type 0 where
  answered : Result → Reply
  delivered : List ℕ → Reply
  state : ℕ → ℕ → Reply

-- A queue of at most `capacity` bytes: a send is taken whole or not at all, and a receive gets
-- nothing below the trigger level.
module _ (capacity trigger : ℕ) where
  unfoldable pub step : List ℕ → Call → Reply × List ℕ
  step q (sends bytes) =
      if length bytes == 0
      then (answered invalid_argument, q)
      else if leb (length q + length bytes) capacity
      then (answered ok, q ++ bytes)
      else (answered timeout, q)
  step q (receives max_len) =
      if max_len == 0 || ltb (length q) trigger
      then (delivered [], q)
      else let n = min (length q) max_len in (delivered (take n q), drop n q)
  step q resets = (answered ok, [])
  step q asks = (state (length q) (capacity - length q), q)

  unfoldable pub run : List ℕ → List Call → List Reply
  run q [] = []
  run q (c ∷ cs) = let (reply, q') = step q c in reply ∷ run q' cs
