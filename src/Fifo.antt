-- ===== src/Fifo.antt =====
-- A bounded first-in first-out queue as a list, oldest item first: what the ring containers promise.
use micr_osal.Common.{
  ℕ, ◌-◌, min, List, [], ◌∷◌, ◌++◌, Option, none, some, Bool, true, false, ltb, if◌then◌else◌, take,
  drop, length,
}

module _ {ℓ} {A : Type ℓ} where
  unfoldable pub push : ℕ → List A → A → Bool × List A
  push capacity q x = if ltb (length q) capacity then (true, q ++ (x ∷ [])) else (false, q)

  -- As many of the first `count` items as there is room for.
  unfoldable pub push_n : ℕ → List A → List A → ℕ → ℕ × List A
  push_n capacity q items count = let n = min count (capacity - length q) in (n, q ++ take n items)

  unfoldable pub pop : List A → Option A × List A
  pop [] = (none, [])
  pop (x ∷ q) = (some x, q)

  unfoldable pub pop_n : List A → ℕ → ℕ × List A × List A
  pop_n q count = let n = min count (length q) in (n, take n q, drop n q)
