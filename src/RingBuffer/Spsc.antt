-- ===== src/RingBuffer/Spsc.antt =====
-- include/osal/ring_buffer.hpp under concurrency: `try_push` on one thread and `try_pop` on another,
-- interleaved at each access to shared memory. A release store is one step, and the acquire load of
-- the other thread's index, which may be stale when it is acted on, is another.
mod Invariant
pub mod Safety
use micr_osal.Common.{ℕ, List, [], ◌∷◌, ◌++◌, ◌==◌, if◌then◌else◌, get_or, set}
use micr_osal.RingBuffer.{RingBuffer, increment, fresh}

-- Where the producer stands in `try_push`, with what it holds in registers.
pub data Producer {ℓ} (A : Type ℓ) : Type ℓ where
  resting : Producer A
  has_room : A → ℕ → Producer A
  stored : A → ℕ → Producer A

-- Where the consumer stands in `try_pop`.
pub data Consumer {ℓ} (A : Type ℓ) : Type ℓ where
  waiting : Consumer A
  has_item : ℕ → Consumer A
  loaded : A → ℕ → Consumer A

-- The buffer, both threads, and the items of the calls that have returned true.
pub record System {ℓ} (A : Type ℓ) : Type ℓ where
  pub ring : RingBuffer A
  pub producer : Producer A
  pub consumer : Consumer A
  pub pushed : List A
  pub popped : List A

-- Which thread runs next; a producer at rest begins a call with the item.
pub data Turn {ℓ} (A : Type ℓ) : Type ℓ where
  produce : A → Turn A
  consume : Turn A

module _ {ℓ} {A : Type ℓ} (n : ℕ) where
  -- try_push: the loads and the test; the write of the slot; the release store of `head_`.
  unfoldable pub producer_step : Producer A → System A → A → System A
  producer_step resting s x =
      let h = s.ring.head in
      if increment n h == s.ring.tail then s else record s { producer = has_room x h }
  producer_step (has_room x h) s y = record s {
    ring = record (s.ring) { buf = set s.ring.buf h x };
    producer = stored x h;
  }
  producer_step (stored x h) s y = record s {
    ring = record (s.ring) { head = increment n h };
    producer = resting;
    pushed = s.pushed ++ (x ∷ []);
  }

module _ {ℓ} {A : Type ℓ} (d : A) (n : ℕ) where
  -- try_pop: the loads and the test; the read of the slot; the release store of `tail_`.
  unfoldable pub consumer_step : Consumer A → System A → System A
  consumer_step waiting s =
      let t = s.ring.tail in if t == s.ring.head then s else record s { consumer = has_item t }
  consumer_step (has_item t) s = record s { consumer = loaded (get_or s.ring.buf t d) t }
  consumer_step (loaded x t) s = record s {
    ring = record (s.ring) { tail = increment n t };
    consumer = waiting;
    popped = s.popped ++ (x ∷ []);
  }

  unfoldable pub turn : System A → Turn A → System A
  turn s (produce x) = producer_step n s.producer s x
  turn s consume = consumer_step s.consumer s

  unfoldable pub interleave : System A → List (Turn A) → System A
  interleave s [] = s
  interleave s (t ∷ ts) = interleave (turn s t) ts

  unfoldable pub start : System A
  start = record {
    ring = fresh d n;
    producer = resting;
    consumer = waiting;
    pushed = [];
    popped = [];
  }
