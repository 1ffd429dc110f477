-- ===== src/MessageBuffer/Spec.antt =====
-- What a client of a message buffer may rely on when its calls do not block.
use micr_osal.Common.{ℕ, ◌+◌, ◌-◌, List, [], ◌∷◌, ◌++◌, leb, ◌==◌, if◌then◌else◌, length, take}
use micr_osal.Error.{Result, ok, timeout, invalid_argument}

-- A client's calls, and what each gives back.
pub data Call : Type 0 where
  sends : List ℕ → Call
  receives : ℕ → Call
  resets asks : Call

pub data Reply : Type 0 where
  answered : Result → Reply
  delivered : ℕ → List ℕ → Reply
  state : ℕ → ℕ → Reply

-- The room that messages take, each two bytes longer than it is.
abbrev pub size : List (List ℕ) → ℕ
size [] = 0
size (m ∷ q) = 2 + length m + size q

-- The first message's length.
abbrev pub next : List (List ℕ) → ℕ
next [] = 0
next (m ∷ q) = length m

-- A receive of at most `max_len` bytes: the first message's beginning, the rest of it discarded.
abbrev pub receive : ℕ → List (List ℕ) → Reply × List (List ℕ)
receive max_len [] = (delivered 0 [], [])
receive max_len (m ∷ q) = (delivered (length (take max_len m)) (take max_len m), q)

-- A queue of messages that takes up at most `capacity` bytes.
module _ (capacity : ℕ) where
  unfoldable pub step : List (List ℕ) → Call → Reply × List (List ℕ)
  step q (sends m) =
      if length m == 0
      then (answered invalid_argument, q)
      else if leb (size q + 2 + length m) capacity
      then (answered ok, q ++ (m ∷ []))
      else (answered timeout, q)
  step q (receives max_len) = if max_len == 0 then (delivered 0 [], q) else receive max_len q
  step q resets = (answered ok, [])
  step q asks = (state (next q) (capacity - size q - 2), q)

  unfoldable pub run : List (List ℕ) → List Call → List Reply
  run q [] = []
  run q (c ∷ cs) = let (reply, q') = step q c in reply ∷ run q' cs
