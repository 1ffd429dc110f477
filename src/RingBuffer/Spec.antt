-- ===== src/RingBuffer/Spec.antt =====
-- What a client of a ring buffer may rely on: the replies of a bounded queue.
use micr_osal.Common.{ℕ, ◌-◌, List, [], ◌∷◌, ◌==◌, length}
use micr_osal.Fifo
use micr_osal.RingBuffer.{
  Call, pushes, pushes_n, pops, peeks, resets, asks, pops_n, Reply, accepted, moved, popped, state,
  done,
}

module _ {ℓ} {A : Type ℓ} (capacity : ℕ) where
  unfoldable pub step : List A → Call A → Reply A × List A
  step q (pushes x) = let (b, q') = Fifo.push capacity q x in (accepted b, q')
  step q (pushes_n xs) = let (m, q') = Fifo.push_n capacity q xs (length xs) in (moved m [], q')
  step q pops = let (x, q') = Fifo.pop q in (popped x, q')
  step q peeks = (popped (Fifo.pop q).0, q)
  step q resets = (done, [])
  step q asks = (state (length q) (capacity - length q) (length q == 0) (length q == capacity), q)
  step q (pops_n count) = let (m, xs, q') = Fifo.pop_n q count in (moved m xs, q')

  unfoldable pub run : List A → List (Call A) → List (Reply A)
  run q [] = []
  run q (c ∷ cs) = let (reply, q') = step q c in reply ∷ run q' cs
