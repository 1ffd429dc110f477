-- ===== src/RingBuffer.antt =====
-- include/osal/ring_buffer.hpp: the single-producer, single-consumer ring buffer, one call after
-- another. `n` is the template's N, the number of usable slots; the storage has one more.
pub mod Inv
pub mod Spec
pub mod Refine
pub mod Spsc
mod Tests
use micr_osal.Common.{
  ℕ, ◌+◌, ◌-◌, List, [], ◌∷◌, Option, none, some, Bool, true, false, ltb, leb, ◌==◌, if◌then◌else◌,
  get_or, set, length, replicate, add_size, sub_size,
}
use micr_osal.Ring.{slice, copy_in, copy_out}

pub record RingBuffer {ℓ} (A : Type ℓ) : Type ℓ where
  pub buf : List A
  pub head : ℕ
  pub tail : ℕ

-- min_of
abbrev pub min_of : ℕ → ℕ → ℕ
min_of a b = if ltb a b then a else b

-- A client's calls, and what each gives back.
pub data Call {ℓ} (A : Type ℓ) : Type ℓ where
  pushes : A → Call A
  pushes_n : List A → Call A
  pops peeks resets asks : Call A
  pops_n : ℕ → Call A

pub data Reply {ℓ} (A : Type ℓ) : Type ℓ where
  accepted : Bool → Reply A
  moved : ℕ → List A → Reply A
  popped : Option A → Reply A
  state : ℕ → ℕ → Bool → Bool → Reply A
  done : Reply A

module _ (n : ℕ) where
  -- kCapacity
  abbrev pub k_capacity : ℕ
  k_capacity = n + 1

  -- increment
  abbrev pub increment : ℕ → ℕ
  increment idx = if add_size idx 1 == k_capacity then 0 else add_size idx 1

module _ {ℓ} {A : Type ℓ} where
  unfoldable pub reset : RingBuffer A → RingBuffer A
  reset r = record r { tail = r.head }

  abbrev pub empty : RingBuffer A → Bool
  empty r = r.head == r.tail

module _ {ℓ} {A : Type ℓ} (n : ℕ) where
  unfoldable pub try_push : RingBuffer A → A → Bool × RingBuffer A
  try_push r item =
      let h = r.head in
      let next = increment n h in
      if next == r.tail
      then (false, r)
      else (true, record r { buf = set r.buf h item; head = next })

  unfoldable pub try_push_n : RingBuffer A → List A → ℕ → ℕ × RingBuffer A
  try_push_n r items count =
      let h = r.head in
      let t = r.tail in
      let avail : ℕ =
        if ltb h t
        then sub_size (sub_size t h) 1
        else sub_size (add_size (sub_size (k_capacity n) h) t) 1 in
      let m = min_of count avail in
      if m == 0
      then (0, r)
      else let new_h : ℕ =
          if ltb (add_size h m) (k_capacity n)
          then add_size h m
          else sub_size (add_size h m) (k_capacity n) in
        (m, record r { buf = copy_in (k_capacity n) r.buf h items m; head = new_h })

  -- The count that is returned, the items that go to `items`, and the buffer after.
  unfoldable pub try_pop_n : RingBuffer A → ℕ → ℕ × List A × RingBuffer A
  try_pop_n r count =
      let t = r.tail in
      let h = r.head in
      let avail : ℕ = if leb t h then sub_size h t else add_size (sub_size (k_capacity n) t) h in
      let m = min_of count avail in
      if m == 0
      then (0, [], r)
      else let new_t : ℕ =
          if ltb (add_size t m) (k_capacity n)
          then add_size t m
          else sub_size (add_size t m) (k_capacity n) in
        (m, copy_out (k_capacity n) r.buf t m, record r { tail = new_t })

  abbrev pub size : RingBuffer A → ℕ
  size r =
      if leb r.tail r.head
      then sub_size r.head r.tail
      else add_size (sub_size (k_capacity n) r.tail) r.head

  abbrev pub free : RingBuffer A → ℕ
  free r = sub_size n (size r)

  abbrev pub full : RingBuffer A → Bool
  full r = increment n r.head == r.tail

-- `d` is `T{}`, which fills the storage at first.
module _ {ℓ} {A : Type ℓ} (d : A) (n : ℕ) where
  unfoldable pub fresh : RingBuffer A
  fresh = record { buf = replicate (k_capacity n) d; head = 0; tail = 0 }

  -- The option is the boolean result with what goes to `item`.
  unfoldable pub try_pop : RingBuffer A → Option A × RingBuffer A
  try_pop r =
      let t = r.tail in
      if t == r.head
      then (none, r)
      else (some (get_or r.buf t d), record r { tail = increment n t })

  unfoldable pub peek : RingBuffer A → Option A
  peek r = if r.tail == r.head then none else some (get_or r.buf r.tail d)

  -- A span's overload passes the span's size on.
  unfoldable pub step : RingBuffer A → Call A → Reply A × RingBuffer A
  step r (pushes x) = let (b, r') = try_push n r x in (accepted b, r')
  step r (pushes_n xs) = let (m, r') = try_push_n n r xs (length xs) in (moved m [], r')
  step r pops = let (x, r') = try_pop r in (popped x, r')
  step r peeks = (popped (peek r), r)
  step r resets = (done, reset r)
  step r asks = (state (size n r) (free n r) (empty r) (full n r), r)
  step r (pops_n count) = let (m, xs, r') = try_pop_n n r count in (moved m xs, r')

  unfoldable pub run : RingBuffer A → List (Call A) → List (Reply A)
  unfolding step
  run r [] = []
  run r (c ∷ cs) = let (reply, r') = step r c in reply ∷ run r' cs
