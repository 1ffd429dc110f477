-- ===== src/RingBuffer/Refine.antt =====
-- A valid ring buffer behaves as the bounded queue of the items that it holds.
use micr_osal.Common.{
  ℕ, ◌+◌, ◌-◌, ◌≤◌, ◌<◌, min, ◌≡◌, inl, inr, refl, sym, ap, ap₂, ◌∙◌, List, [], ◌∷◌, ◌++◌, length,
  arith, true, false, max_object, ◌==◌, take, drop, get_or, Bool-cases, Bool, Option, some,
  take-append_left, drop-append_left, set, ==→eq, ==_refl, lt-or-ge, append-nil,
}
use micr_osal.Common.{ne→==, lt→ltb, le→ltb}
use micr_osal.Fifo
use micr_osal.Ring.{slot, copy_in, window}
use micr_osal.Ring.Window.{window-add, window-copy_in, window-set, copy_out-window, length-window}
use micr_osal.RingBuffer.{
  RingBuffer, Call, pushes, pushes_n, pops, peeks, resets, asks, pops_n, k_capacity, reset,
  try_push, try_push_n, try_pop_n, size, full, fresh, try_pop, peek, step, run, accepted, moved,
  popped, done,
}
use micr_osal.RingBuffer.Inv.{
  IsValid, size-le, head-slot, increment-slot, free-eq, empty_iff, full_iff, avail_push, moved-slot,
  min_of-min, step-IsValid,
}
use micr_osal.RingBuffer.Spec

-- The items in the buffer, oldest first.
abbrev pub contents {ℓ} : {A : Type ℓ} → A → ℕ → RingBuffer A → List A
contents d n r = window d (n + 1) r.buf r.tail (size n r)

pub length-contents {ℓ} :
    {A : Type ℓ} (d : A) (n : ℕ) (r : RingBuffer A) → length (contents d n r) ≡ size n r
length-contents d n r = length-window d (n + 1) r.buf r.tail (size n r)

-- Moving the head on by `m` from within the room makes the buffer `m` items larger.
pub size-moved_head {ℓ} :
    {A : Type ℓ} (n : ℕ) (r : RingBuffer A) (v : IsValid n r) (buf : List A) (m : ℕ)
    → size n r + m ≤ n
    → size n (record r { buf = buf; head = slot (n + 1) (r.head + m) }) ≡ size n r + m
size-moved_head n r v buf m h = ground arith

pub size-moved_tail {ℓ} :
    {A : Type ℓ} (n : ℕ) (r : RingBuffer A) (v : IsValid n r) (m : ℕ)
    → m ≤ size n r
    → size n (record r { tail = slot (n + 1) (r.tail + m) }) ≡ size n r - m
size-moved_tail n r v m h = ground arith

module _ {ℓ} {A : Type ℓ} (d : A) (n : ℕ) (r : RingBuffer A) (v : IsValid n r) where
  -- Putting `items` behind the head and moving it appends them to the contents.
  pub contents-copy_in :
      (items : List A) (m : ℕ)
      → size n r + m ≤ n
      → m ≤ length items
      → contents d n (record r {
        buf = copy_in (k_capacity n) r.buf r.head items m;
        head = slot (n + 1) (r.head + m);
      })
        ≡ contents d n r ++ take m items
  contents-copy_in items m h given =
      ap (λ k. window d (n + 1) (copy_in (n + 1) r.buf r.head items m) r.tail k)
        (size-moved_head n r v (copy_in (n + 1) r.buf r.head items m) m h)
      ∙ ap (λ j. window d (n + 1) (copy_in (n + 1) r.buf j items m) r.tail (size n r + m))
          (head-slot n r v)
      ∙ window-copy_in d (n + 1) r.buf r.tail (size n r) items m (omega (arith, v.small))
          (omega (arith, v.storage)) v.tail_in (omega arith) given

  pub contents-set :
      (x : A)
      → size n r < n
      → contents d n (record r { buf = set r.buf r.head x; head = slot (n + 1) (r.head + 1) })
        ≡ contents d n r ++ (x ∷ [])
  contents-set x h =
      ap (λ k. window d (n + 1) (set r.buf r.head x) r.tail k)
        (size-moved_head n r v (set r.buf r.head x) 1 (omega arith))
      ∙ ap (λ j. window d (n + 1) (set r.buf j x) r.tail (size n r + 1)) (head-slot n r v)
      ∙ window-set d (n + 1) r.buf r.tail (size n r) x (omega (arith, v.storage)) v.tail_in
          (omega arith)

  -- The contents are the first `m` items and what is left when the tail moves past those.
  pub contents-split :
      (m : ℕ)
      → m ≤ size n r
      → contents d n r
        ≡ window d (n + 1) r.buf r.tail m
          ++ contents d n (record r { tail = slot (n + 1) (r.tail + m) })
  contents-split m h =
      let parts : size n r ≡ m + (size n r - m) = omega arith in
      ap (λ k. window d (n + 1) r.buf r.tail k) parts
      ∙ window-add d (n + 1) r.buf r.tail m (size n r - m) v.tail_in (omega (arith, size-le n r v))
      ∙ ap
          (λ k.
            window d (n + 1) r.buf r.tail m ++ window d (n + 1) r.buf (slot (n + 1) (r.tail + m)) k)
          (sym (size-moved_tail n r v m h))

  -- `try_push` accepts and appends an item, or refuses it at capacity.
  pub try_push_refines :
      (x : A)
      → let (b, r') = try_push n r x in (b, contents d n r') ≡ Fifo.push n (contents d n r) x
  unfolding try_push Fifo.push
  try_push_refines x = elim (lt-or-ge (size n r) n) [
    | inl room ↦
        let open_ : full n r ≡ false = full_iff n r v ∙ ne→== (size n r) n (omega arith) in
        rw
          (
            open_,
            length-contents d n r,
            lt→ltb (size n r) n room,
            increment-slot n r v r.head v.head_in,
          )
          (ap (λ q. (true, q)) (contents-set x room))
    | inr at_capacity ↦
        let e : size n r ≡ n = omega (arith, size-le n r v) in
        let shut : full n r ≡ true = full_iff n r v ∙ rw e (==_refl n) in
        rw (shut, length-contents d n r, le→ltb (size n r) n at_capacity)
  ]

  -- `try_push_n` takes as many items as there is room for and appends exactly those.
  pub try_push_n_refines :
      (items : List A) (count : ℕ)
      → count ≤ length items
      → let (m, r') = try_push_n n r items count in
        (m, contents d n r') ≡ Fifo.push_n n (contents d n r) items count
  unfolding try_push_n Fifo.push_n
  try_push_n_refines items count given =
      let m = min count (n - size n r) in
      let le : size n r ≤ n = size-le n r v in
      elim (Bool-cases (m == 0)) [
        | inl e ↦
            let z : m ≡ 0 = ==→eq m 0 e in
            rw (avail_push n r v, min_of-min, e, length-contents d n r, z)
              (ap (λ q. (0, q)) (sym (append-nil (contents d n r))))
        | inr e ↦
            rw
              (
                avail_push n r v,
                min_of-min,
                e,
                length-contents d n r,
                moved-slot n r.head m v.small v.head_in (omega arith),
              )
              (ap (λ q. (m, q)) (contents-copy_in items m (omega arith) (omega arith)))
      ]

  -- `try_pop` takes the oldest item.
  pub try_pop_refines :
      let (x, r') = try_pop d n r in (x, contents d n r') ≡ Fifo.pop (contents d n r)
  unfolding try_pop Fifo.pop
  try_pop_refines = elim (Bool-cases (r.tail == r.head)) [
    | inl e ↦ let z : size n r ≡ 0 = ground arith in rw (e, z)
    | inr e ↦
        let some_item : 1 ≤ size n r = ground arith in
        let first : r.tail ≡ slot (n + 1) (r.tail + 0) = ground arith in
        rw (e, contents-split 1 some_item, increment-slot n r v r.tail v.tail_in)
          (ap
            (λ j. (
              some (get_or r.buf j d),
              contents d n (record r { tail = slot (n + 1) (r.tail + 1) }),
            ))
            first)
  ]

  pub peek_refines : peek d n r ≡ (Fifo.pop (contents d n r)).0
  unfolding peek Fifo.pop
  peek_refines = elim (Bool-cases (r.tail == r.head)) [
    | inl e ↦ let z : size n r ≡ 0 = ground arith in rw (e, z)
    | inr e ↦
        let some_item : 1 ≤ size n r = ground arith in
        let first : r.tail ≡ slot (n + 1) (r.tail + 0) = ground arith in
        rw (e, contents-split 1 some_item) (ap (λ j. some (get_or r.buf j d)) first)
  ]

  -- `try_pop_n` takes the oldest items, as many as asked for if they are there.
  pub try_pop_n_refines :
      (count : ℕ)
      → let (m, xs, r') = try_pop_n n r count in
        (m, xs, contents d n r') ≡ Fifo.pop_n (contents d n r) count
  unfolding try_pop_n Fifo.pop_n
  try_pop_n_refines count =
      let m = min count (size n r) in
      let le : size n r ≤ n = size-le n r v in
      let w = window d (n + 1) r.buf r.tail m in
      let w_length : length w ≡ m = length-window d (n + 1) r.buf r.tail m in
      let left = contents d n (record r { tail = slot (n + 1) (r.tail + m) }) in
      let split : contents d n r ≡ w ++ left = contents-split m (omega arith) in
      elim (Bool-cases (m == 0)) [
        | inl e ↦ let z : m ≡ 0 = ==→eq m 0 e in rw (min_of-min, e, length-contents d n r, z)
        | inr e ↦
            rw
              (
                min_of-min,
                e,
                length-contents d n r,
                moved-slot n r.tail m v.small v.tail_in (omega arith),
              )
              (ap₂ (λ xs q. (m, xs, q))
                (copy_out-window d (n + 1) r.buf r.tail m (omega (arith, v.small))
                    (omega (arith, v.storage)) v.tail_in (omega arith)
                  ∙ sym (ap (λ q. take m q) split ∙ take-append_left m w left w_length))
                (sym (ap (λ q. drop m q) split ∙ drop-append_left m w left w_length)))
      ]

module _ {ℓ} {A : Type ℓ} (d : A) (n : ℕ) where
  contents-reset : (r : RingBuffer A) → contents d n (reset r) ≡ []
  unfolding reset
  contents-reset r =
      let z : size n (record r { tail = r.head }) ≡ 0 = ground arith in
      ap (λ k. window d (n + 1) r.buf r.head k) z

  contents-fresh : 0 < n → n + 1 ≤ max_object → contents d n (fresh d n) ≡ []
  unfolding fresh
  contents-fresh p h = refl

  -- Each call answers as the queue does and leaves the buffer holding what the queue holds.
  step_refines :
      (r : RingBuffer A) (c : Call A)
      → IsValid n r
      → let (reply, r') = step d n r c in (reply, contents d n r') ≡ Spec.step n (contents d n r) c
  unfolding step Spec.step
  step_refines r (pushes x) v =
      ap (λ (p : Bool × List A). (accepted p.0, p.1)) (try_push_refines d n r v x)
  step_refines r (pushes_n xs) v =
      ap (λ (p : ℕ × List A). (moved p.0 [], p.1))
        (try_push_n_refines d n r v xs (length xs) (omega arith))
  step_refines r pops v =
      ap (λ (p : Option A × List A). (popped p.0, p.1)) (try_pop_refines d n r v)
  step_refines r peeks v = ap (λ x. (popped x, contents d n r)) (peek_refines d n r v)
  step_refines r resets v = ap (λ q. (done, q)) (contents-reset r)
  step_refines r asks v = rw (length-contents d n r, free-eq n r v, empty_iff n r v, full_iff n r v)
  step_refines r (pops_n count) v =
      ap (λ (p : ℕ × List A × List A). (moved p.0 p.1, p.2)) (try_pop_n_refines d n r v count)

  -- A client of a valid ring buffer sees, over any sequence of single and bulk pushes, pops, peeks,
  -- queries and resets, exactly what the bounded queue of the buffer's contents answers.
  pub run_refines :
      (cs : List (Call A)) (r : RingBuffer A)
      → IsValid n r
      → run d n r cs ≡ Spec.run n (contents d n r) cs
  unfolding run Spec.run
  run_refines [] r v = refl
  run_refines (c ∷ cs) r v =
      rw (run_refines cs (step d n r c).1 (step-IsValid d n r c v), ← step_refines r c v)
