-- ===== src/RingBuffer/Spsc/Safety.antt =====
-- What a client of the ring buffer relies on when the two threads interleave.
use micr_osal.Common.{ℕ, ◌+◌, ◌≤◌, ◌<◌, ◌≡◌, ◌≢◌, subst, List, ◌++◌, arith, max_object, length}
use micr_osal.RingBuffer.{RingBuffer, size}
use micr_osal.RingBuffer.Inv.{IsValid, size-le}
use micr_osal.RingBuffer.Refine.{contents, length-contents}
use micr_osal.RingBuffer.Spsc.{has_room, has_item, Turn, interleave, start}
use micr_osal.RingBuffer.Spsc.Invariant.{Inv, ProducerFits, ConsumerFits, interleave-Inv, start-Inv}

-- An index of a buffer that is not empty and not full is not both its head and its tail.
apart {ℓ} :
    {A : Type ℓ} {n : ℕ} (r : RingBuffer A) (h t : ℕ)
    → IsValid n r
    → h ≡ r.head
    → t ≡ r.tail
    → 0 < size n r
    → h ≢ t
apart r h t v e f p = ground arith

module _ {ℓ} {A : Type ℓ} (d : A) (n : ℕ) (positive : 0 < n) (small : n + 1 ≤ max_object) where
  reached : (ts : List (Turn A)) → Inv d n (interleave d n (start d n) ts)
  reached ts = interleave-Inv d n (start d n) ts (start-Inv d n positive small)

  -- However the producer's and the consumer's steps interleave from an empty buffer, the items of the
  -- pushes that succeeded are, in order, the items that were popped followed by those still in the
  -- buffer, which are at most `n`: nothing is lost, doubled or reordered.
  pub interleave_fifo :
      (ts : List (Turn A))
      → let s = interleave d n (start d n) ts in
        (s.pushed ≡ s.popped ++ contents d n s.ring) × (length (contents d n s.ring) ≤ n)
  interleave_fifo ts =
      let s = interleave d n (start d n) ts in
      let v = reached ts in
      (v.history, omega (arith, length-contents d n s.ring, size-le n s.ring v.valid))

  -- In no interleaving is the producer about to write a slot while the consumer is about to read that
  -- slot.
  pub interleave_no_race :
      (ts : List (Turn A)) (x : A) (h t : ℕ)
      → (interleave d n (start d n) ts).producer ≡ has_room x h
      → (interleave d n (start d n) ts).consumer ≡ has_item t
      → h ≢ t
  interleave_no_race ts x h t producing consuming =
      let s = interleave d n (start d n) ts in
      let v = reached ts in
      let p : ProducerFits d n s.ring (has_room x h) =
        subst (ProducerFits d n s.ring) producing v.producer_fits in
      let c : ConsumerFits d n s.ring (has_item t) =
        subst (ConsumerFits d n s.ring) consuming v.consumer_fits in
      apart s.ring h t v.valid p.0 c.0 c.1
