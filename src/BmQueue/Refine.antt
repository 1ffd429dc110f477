-- ===== src/BmQueue/Refine.antt =====
-- The bare-metal queue of src/bare_metal/bare_metal_backend.cpp against the bounded queue.
use micr_osal.Common.{
  ℕ, ◌+◌, ◌-◌, ◌≤◌, ◌<◌, ◌≡◌, refl, sym, ap, ap₂, ◌∙◌, inl, inr, List, [], ◌∷◌, ◌++◌, none, some,
  ◌==◌, arith, length, get_or, set, length-set, add_size, sub_size, max_object, lt-or-ge, lt→ltb,
  le→ltb, ==→eq, ==→ne, Bool-cases,
}
use native.Mathlib.Nat.{mod-eq_of_lt, mod_self}
use micr_osal.Error.{ok, timeout, would_block}
use micr_osal.Ring.{slot, window}
use micr_osal.Ring.Window.{window-set, window-add, length-window}
use micr_osal.Fifo
use micr_osal.BmQueue.{
  Item, Queue, fresh, next_index, put, get, send_loop, receive_loop, send, receive, send_isr,
  receive_isr, peek, count_of, free_of,
}
use micr_osal.BmQueue.Spec.{
  Call, sends, receives, peeks, asks, step, run, abstract_step, abstract_run,
}

pub record IsValid (q : Queue) : Type 0 where
  pub positive : 0 < q.capacity
  pub small : q.capacity ≤ max_object
  pub storage : q.capacity ≤ length q.buf
  pub head_in : q.head < q.capacity
  pub count_in : q.count ≤ q.capacity
  pub tail_at : q.tail ≡ slot q.capacity (q.head + q.count)

-- The items in the queue, oldest first.
abbrev pub queued : Queue → List Item
queued q = window [] q.capacity q.buf q.head q.count

length-queued : (q : Queue) → length (queued q) ≡ q.count
length-queued q = length-window [] q.capacity q.buf q.head q.count

-- An index goes round at the capacity.
next-slot :
    (q : Queue) (i : ℕ)
    → q.capacity ≤ max_object
    → i < q.capacity
    → next_index q i ≡ slot q.capacity (i + 1)
next-slot q i small h = elim (lt-or-ge (i + 1) q.capacity) [
  | inl lt ↦
      let same : add_size i 1 ≡ i + 1 = omega arith in
      rw same (mod-eq_of_lt {n = i + 1} {m = q.capacity} lt ∙ ground arith)
  | inr ge ↦
      let same : add_size i 1 ≡ q.capacity = omega arith in
      rw same (mod_self q.capacity ∙ ground arith)
]

-- The queue after an accepted item, and after an item is taken.
abbrev stored : Queue → Item → Queue
stored q item = record q {
  buf = set q.buf q.tail item;
  tail = next_index q q.tail;
  count = q.count + 1;
}

abbrev rest_of : Queue → Queue
rest_of q = record q { head = next_index q q.head; count = q.count - 1 }

tail_in : (q : Queue) → IsValid q → q.tail < q.capacity
tail_in q v = ground (arith, v.tail_at, v.head_in, v.count_in)

stored-IsValid :
    (q : Queue) (item : Item) → IsValid q → q.count < q.capacity → IsValid (stored q item)
stored-IsValid q item v room = record {
  positive = v.positive;
  small = v.small;
  storage = omega (arith, v.storage, length-set q.buf q.tail item);
  head_in = v.head_in;
  count_in = omega arith;
  tail_at =
      next-slot q q.tail v.small (tail_in q v) ∙ ground (arith, v.tail_at, v.head_in, v.count_in);
}

queued-stored :
    (q : Queue) (item : Item)
    → IsValid q
    → q.count < q.capacity
    → queued (stored q item) ≡ queued q ++ (item ∷ [])
queued-stored q item v room =
    ap (λ t. window [] q.capacity (set q.buf t item) q.head (q.count + 1)) (v.tail_at)
    ∙ window-set [] q.capacity q.buf q.head q.count item v.storage v.head_in room

rest_of-IsValid : (q : Queue) → IsValid q → 0 < q.count → IsValid (rest_of q)
rest_of-IsValid q v more =
    let next = next-slot q q.head v.small v.head_in in
    record {
      positive = v.positive;
      small = v.small;
      storage = v.storage;
      head_in = ground (arith, next, v.head_in);
      count_in = omega (arith, v.count_in);
      tail_at = v.tail_at ∙ ground (arith, next, v.head_in, v.count_in);
    }

queued-rest_of :
    (q : Queue) → IsValid q → 0 < q.count → queued q ≡ get_or q.buf q.head [] ∷ queued (rest_of q)
queued-rest_of q v more =
    let rest = q.count - 1 in
    let at_head : slot q.capacity (q.head + 0) ≡ q.head = ground (arith, v.head_in) in
    let next = sym (next-slot q q.head v.small v.head_in) in
    ap (window [] q.capacity q.buf q.head) {x = q.count} {y = 1 + rest} (omega arith)
    ∙ window-add [] q.capacity q.buf q.head 1 rest v.head_in (omega (arith, v.count_in))
    ∙ ap₂ (λ i t. get_or q.buf i [] ∷ window [] q.capacity q.buf t rest) at_head next

queued-empty : (q : Queue) → q.count ≡ 0 → queued q ≡ []
queued-empty q z = ap (window [] q.capacity q.buf q.head) z

-- What a call on a valid queue does: the reply of the bounded queue, and a valid queue with its items.
abbrev Refines : Queue → Call → Type 0
Refines q c =
    (q' : Queue) × IsValid q'
    × (q'.capacity ≡ q.capacity)
    × (step (some q) c ≡ ((abstract_step q.capacity (queued q) c).0, some q'))
    × (queued q' ≡ (abstract_step q.capacity (queued q) c).1)

send_isr-put :
    (q q' : Queue) (item : Item) (now : ℕ)
    → put q item ≡ some q'
    → send_isr (some q) item now ≡ some (ok, some q')
unfolding send_isr send send_loop
send_isr-put q q' item now e = rw (e, send, send_loop) refl

send_isr-full :
    (q : Queue) (item : Item) (now : ℕ)
    → put q item ≡ none
    → send_isr (some q) item now ≡ some (would_block, some q)
unfolding send_isr send send_loop
send_isr-full q item now e = rw (e, send, send_loop) refl

receive_isr-get :
    (q q' : Queue) (item : Item) (now : ℕ)
    → get q ≡ some (item, q')
    → receive_isr (some q) now ≡ some (ok, some item, some q')
unfolding receive_isr receive receive_loop
receive_isr-get q q' item now e = rw (e, receive, receive_loop) refl

receive_isr-empty :
    (q : Queue) (now : ℕ) → get q ≡ none → receive_isr (some q) now ≡ some (timeout, none, some q)
unfolding receive_isr receive receive_loop
receive_isr-empty q now e = rw (e, receive, receive_loop) refl

sends-Refines : (q : Queue) (item : Item) (now : ℕ) → IsValid q → Refines q (sends item now)
unfolding step abstract_step Fifo.push put
sends-Refines q item now v =
    let n = length-queued q in
    elim (lt-or-ge q.count q.capacity) [
      | inl room ↦
          let t = lt→ltb q.count q.capacity room in
          let e = send_isr-put q (stored q item) item now (rw t refl) in
          (
            stored q item,
            stored-IsValid q item v room,
            refl,
            rw (e, n, t) refl,
            rw (n, t) (queued-stored q item v room),
          )
      | inr full ↦
          let t = le→ltb q.count q.capacity full in
          let e = send_isr-full q item now (rw t refl) in
          (q, v, refl, rw (e, n, t) refl, rw (n, t) refl)
    ]

receives-Refines : (q : Queue) (now : ℕ) → IsValid q → Refines q (receives now)
unfolding step abstract_step Fifo.pop get
receives-Refines q now v = elim (lt-or-ge 0 q.count) [
  | inl more ↦
      let t = lt→ltb 0 q.count more in
      let e = receive_isr-get q (rest_of q) (get_or q.buf q.head []) now (rw t refl) in
      let s = queued-rest_of q v more in
      (rest_of q, rest_of-IsValid q v more, refl, rw (e, s) refl, rw s refl)
  | inr none_in ↦
      let e = receive_isr-empty q now (rw (le→ltb 0 q.count none_in) refl) in
      let s = queued-empty q (omega arith) in (q, v, refl, rw (e, s) refl, rw s refl)
]

peeks-Refines : (q : Queue) → IsValid q → Refines q peeks
unfolding step abstract_step Fifo.pop peek
peeks-Refines q v = elim (Bool-cases (q.count == 0)) [
  | inl z ↦ let s = queued-empty q (==→eq q.count 0 z) in (q, v, refl, rw (s, z) refl, refl)
  | inr z ↦
      let n = ==→ne q.count 0 z in
      let s = queued-rest_of q v (omega arith) in (q, v, refl, rw (s, z) refl, refl)
]

asks-Refines : (q : Queue) → IsValid q → Refines q asks
unfolding step abstract_step count_of free_of
asks-Refines q v =
    let n = length-queued q in
    let free : sub_size q.capacity q.count ≡ q.capacity - q.count =
      omega (arith, v.count_in, v.small) in
    (q, v, refl, rw (n, free) refl, refl)

step-Refines : (q : Queue) (c : Call) → IsValid q → Refines q c
step-Refines q (sends item now) v = sends-Refines q item now v
step-Refines q (receives now) v = receives-Refines q now v
step-Refines q peeks v = peeks-Refines q v
step-Refines q asks v = asks-Refines q v

run-refines :
    (q : Queue) (cs : List Call)
    → IsValid q
    → run (some q) cs ≡ abstract_run q.capacity (queued q) cs
unfolding run abstract_run
run-refines q [] v = refl
run-refines q (c ∷ cs) v =
    let (q', v', same, reply, items) = step-Refines q c v in
    let ih = run-refines q' cs v' in
    rw reply (
      ap (λ l. (abstract_step q.capacity (queued q) c).0 ∷ l)
        (ih ∙ ap₂ (λ n l. abstract_run n l cs) same items))

-- On a new queue with a capacity above 0, over a buffer of at least that many items, any sequence of
-- sends and receives that do not wait, peeks and questions for the sizes gets exactly the replies of a
-- bounded first-in first-out queue.
pub queue_refines :
    (buf : List Item) (capacity : ℕ) (cs : List Call)
    → 0 < capacity
    → capacity ≤ max_object
    → capacity ≤ length buf
    → run (some (fresh buf capacity)) cs ≡ abstract_run capacity [] cs
queue_refines buf capacity cs positive small fits = run-refines (fresh buf capacity) cs (record {
  positive = positive;
  small = small;
  storage = fits;
  head_in = positive;
  count_in = omega arith;
  tail_at = ground arith;
})
