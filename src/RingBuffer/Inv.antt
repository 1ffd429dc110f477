-- ===== src/RingBuffer/Inv.antt =====
-- The representation invariant of `ring_buffer`, and its indices without wrap-around.
use micr_osal.Common.{
  ℕ, ◌+◌, ◌-◌, ◌≤◌, ◌<◌, min, ◌≡◌, List, ltb, length, arith, max_object, sub_size, add_size,
  length-set, length-replicate, if◌then◌else◌, ◌==◌,
}
use micr_osal.Ring.{slot}
use micr_osal.Ring.Copy.{length-copy_in}
use micr_osal.RingBuffer.{
  RingBuffer, Call, pushes, pushes_n, pops, peeks, resets, asks, pops_n, k_capacity, increment,
  min_of, reset, empty, try_push, try_push_n, try_pop_n, size, free, full, fresh, try_pop, step,
}

pub record IsValid {ℓ} {A : Type ℓ} (n : ℕ) (r : RingBuffer A) : Type ℓ where
  pub positive : 0 < n
  pub small : n + 1 ≤ max_object
  pub storage : length r.buf ≡ n + 1
  pub head_in : r.head < n + 1
  pub tail_in : r.tail < n + 1

module _ {ℓ} {A : Type ℓ} (n : ℕ) (r : RingBuffer A) (v : IsValid n r) where
  pub size-le : size n r ≤ n
  size-le = ground arith

  pub head-slot : r.head ≡ slot (n + 1) (r.tail + size n r)
  head-slot = ground arith

  pub increment-slot : (i : ℕ) → i < n + 1 → increment n i ≡ slot (n + 1) (i + 1)
  increment-slot i h = ground arith

  -- `free`, with `size`, makes up the capacity.
  pub free-eq : free n r ≡ n - size n r
  free-eq = omega (arith, size-le)

  pub empty_iff : empty r ≡ (size n r == 0)
  empty_iff = ground arith

  pub full_iff : full n r ≡ (size n r == n)
  full_iff = ground arith

  -- The room that `try_push_n` computes.
  pub avail_push :
      (if ltb r.head r.tail
        then sub_size (sub_size r.tail r.head) 1
        else sub_size (add_size (sub_size (k_capacity n) r.head) r.tail) 1)
      ≡ n - size n r
  avail_push = ground arith

pub min_of-min : (a b : ℕ) → min_of a b ≡ min a b
min_of-min a b = ground arith

-- The index that a block of `m` items ends at.
pub moved-slot :
    (n i m : ℕ)
    → n + 1 ≤ max_object
    → i < n + 1
    → m ≤ n
    → (if ltb (add_size i m) (k_capacity n)
        then add_size i m
        else sub_size (add_size i m) (k_capacity n))
      ≡ slot (n + 1) (i + m)
moved-slot n i m small h p = ground arith

module _ {ℓ} {A : Type ℓ} where
  pub try_push-IsValid :
      (n : ℕ) (r : RingBuffer A) (x : A) → IsValid n r → IsValid n (try_push n r x).1
  unfolding try_push
  try_push-IsValid n r x v = ground (arith, length-set r.buf r.head x)

  pub try_push_n-IsValid :
      (n : ℕ) (r : RingBuffer A) (items : List A) (count : ℕ)
      → IsValid n r
      → IsValid n (try_push_n n r items count).1
  unfolding try_push_n
  try_push_n-IsValid n r items count v = ground (
    arith,
    length-copy_in (k_capacity n) r.buf r.head items (min_of count (n - size n r)),
    avail_push n r v,
  )

  pub try_pop_n-IsValid :
      (n : ℕ) (r : RingBuffer A) (count : ℕ) → IsValid n r → IsValid n (try_pop_n n r count).2
  unfolding try_pop_n
  try_pop_n-IsValid n r count v = ground arith

  pub reset-IsValid : (n : ℕ) (r : RingBuffer A) → IsValid n r → IsValid n (reset r)
  unfolding reset
  reset-IsValid n r v = ground arith

module _ {ℓ} {A : Type ℓ} (d : A) (n : ℕ) where
  pub fresh-IsValid : 0 < n → n + 1 ≤ max_object → IsValid n (fresh d n)
  unfolding fresh
  fresh-IsValid p h = ground (arith, length-replicate (n + 1) d)

  pub try_pop-IsValid : (r : RingBuffer A) → IsValid n r → IsValid n (try_pop d n r).1
  unfolding try_pop
  try_pop-IsValid r v = ground arith

  -- Every call keeps the indices inside the storage.
  pub step-IsValid : (r : RingBuffer A) (c : Call A) → IsValid n r → IsValid n (step d n r c).1
  unfolding step
  step-IsValid r (pushes x) v = try_push-IsValid n r x v
  step-IsValid r (pushes_n xs) v = try_push_n-IsValid n r xs (length xs) v
  step-IsValid r pops v = try_pop-IsValid r v
  step-IsValid r peeks v = v
  step-IsValid r resets v = reset-IsValid n r v
  step-IsValid r asks v = v
  step-IsValid r (pops_n count) v = try_pop_n-IsValid n r count v
