-- ===== src/WorkQueue/Inv.antt =====
-- The ring of a work queue against the list of the entries in it.
use micr_osal.Common.{
  ℕ, zero, suc, ◌+◌, ◌-◌, ◌≤◌, ◌<◌, ◌≡◌, ◌≢◌, refl, ap, ap₂, ◌∙◌, List, [], ◌∷◌, ◌++◌, arith,
  length, get_or, set, length-set, le→leb, lt→leb_false,
}
use micr_osal.Error.{ok, overflow}
use micr_osal.Semaphore.{Semaphore, try_take, max_count-give}
use micr_osal.Ring.{slot, window}
use micr_osal.Ring.Window.{window-set, window-add, length-window}
use micr_osal.WorkQueue.{
  Entry, no_entry, WorkQueue, max_depth, fresh, advance_index, retreat_index, stored, pushed,
  enqueue, drain, discard,
}
use micr_osal.WorkQueue.Worker.{front, popped}

pub record IsValid (wq : WorkQueue) : Type 0 where
  pub positive : 0 < wq.capacity
  pub small : wq.capacity ≤ max_depth
  pub storage : wq.capacity ≤ length wq.ring
  pub head_in : wq.head < wq.capacity
  pub count_in : wq.count ≤ wq.capacity
  pub tail_at : wq.tail ≡ slot wq.capacity (wq.head + wq.count)
  pub sem_max : wq.not_empty.max_count ≡ wq.capacity + 1

-- The entries that wait for the worker, oldest first.
abbrev pub queued : WorkQueue → List Entry
queued wq = window no_entry wq.capacity wq.ring wq.head wq.count

pub length-queued : (wq : WorkQueue) → length (queued wq) ≡ wq.count
length-queued wq = length-window no_entry wq.capacity wq.ring wq.head wq.count

pub fresh-IsValid :
    (ring : List Entry) (depth : ℕ)
    → 0 < depth
    → depth ≤ max_depth
    → depth ≤ length ring
    → IsValid (fresh ring depth)
fresh-IsValid ring depth p h fits = record {
  positive = p;
  small = h;
  storage = fits;
  head_in = p;
  count_in = omega arith;
  tail_at = ground arith;
  sem_max = refl;
}

pub max_count-drain : (n : ℕ) (s : Semaphore) → (drain n s).max_count ≡ s.max_count
unfolding drain try_take
max_count-drain zero s = refl
max_count-drain (suc n) s = max_count-drain n (try_take s).1 ∙ ground arith

pub count-drain : (n : ℕ) (s : Semaphore) → (drain n s).count ≡ s.count - n
unfolding drain try_take
count-drain zero s = omega arith
count-drain (suc n) s = count-drain n (try_take s).1 ∙ ground arith

pub enqueue-full :
    (wq : WorkQueue) (f a : ℕ) → wq.capacity ≤ wq.count → enqueue wq f a ≡ (overflow, wq)
unfolding enqueue
enqueue-full wq f a h = rw (le→leb wq.capacity wq.count h) refl

pub enqueue-room :
    (wq : WorkQueue) (f a : ℕ) → wq.count < wq.capacity → enqueue wq f a ≡ (ok, pushed wq f a)
unfolding enqueue
enqueue-room wq f a h = rw (lt→leb_false wq.capacity wq.count h) refl

-- A submission to a queue with room puts its entry behind the others.
pub queued-pushed :
    (wq : WorkQueue) (f a : ℕ)
    → IsValid wq
    → wq.count < wq.capacity
    → queued (pushed wq f a) ≡ queued wq ++ (stored wq f a ∷ [])
queued-pushed wq f a v h =
    ap (λ t. window no_entry wq.capacity (set wq.ring t (stored wq f a)) wq.head (wq.count + 1))
      (v.tail_at)
    ∙ window-set no_entry wq.capacity wq.ring wq.head wq.count (stored wq f a) v.storage v.head_in h

pub pushed-IsValid :
    (wq : WorkQueue) (f a : ℕ) → IsValid wq → wq.count < wq.capacity → IsValid (pushed wq f a)
pushed-IsValid wq f a v h = record {
  positive = v.positive;
  small = v.small;
  storage = omega (arith, v.storage, length-set wq.ring wq.tail (stored wq f a));
  head_in = v.head_in;
  count_in = omega arith;
  tail_at = ground (arith, v.tail_at, v.head_in, v.small);
  sem_max = max_count-give wq.not_empty ∙ v.sem_max;
}

pub discard-IsValid : (wq : WorkQueue) → IsValid wq → IsValid (discard wq)
unfolding discard
discard-IsValid wq v = record {
  positive = v.positive;
  small = v.small;
  storage = v.storage;
  head_in = v.positive;
  count_in = omega arith;
  tail_at = ground (arith, v.positive);
  sem_max = max_count-drain wq.count wq.not_empty ∙ v.sem_max;
}

pub queued-discard : (wq : WorkQueue) → queued (discard wq) ≡ []
unfolding discard
queued-discard wq = refl

-- The worker takes the oldest entry.
pub queued-popped :
    (wq : WorkQueue) → IsValid wq → wq.count ≢ 0 → queued wq ≡ front wq ∷ queued (popped wq)
queued-popped wq v h =
    let rest = wq.count - 1 in
    let at_head : slot wq.capacity (wq.head + 0) ≡ wq.head = ground (arith, v.head_in) in
    let next : slot wq.capacity (wq.head + 1) ≡ advance_index wq.head wq.capacity =
      ground (arith, v.head_in, v.small) in
    ap (window no_entry wq.capacity wq.ring wq.head) {x = wq.count} {y = 1 + rest} (omega arith)
    ∙ window-add no_entry wq.capacity wq.ring wq.head 1 rest v.head_in (omega (arith, v.count_in))
    ∙ ap₂ (λ i t. get_or wq.ring i no_entry ∷ window no_entry wq.capacity wq.ring t rest) at_head
        next

pub popped-IsValid : (wq : WorkQueue) → IsValid wq → wq.count ≢ 0 → IsValid (popped wq)
popped-IsValid wq v h = record {
  positive = v.positive;
  small = v.small;
  storage = v.storage;
  head_in = ground (arith, v.head_in);
  count_in = omega (arith, v.count_in);
  tail_at = v.tail_at ∙ ground (arith, v.head_in, v.count_in, v.small);
  sem_max = v.sem_max;
}

-- The last entry is the one before the tail.
pub queued-last :
    (wq : WorkQueue)
    → IsValid wq
    → wq.count ≢ 0
    → (front_part : List Entry) × (queued wq
        ≡ front_part ++ (get_or wq.ring (retreat_index wq.tail wq.capacity) no_entry ∷ []))
queued-last wq v h =
    let rest = wq.count - 1 in
    let back : slot wq.capacity (slot wq.capacity (wq.head + rest) + 0)
        ≡ retreat_index wq.tail wq.capacity =
      ground (arith, v.tail_at, v.head_in, v.count_in, v.small) in
    (
      window no_entry wq.capacity wq.ring wq.head rest,
      ap (window no_entry wq.capacity wq.ring wq.head) {x = wq.count} {y = rest + 1} (omega arith)
          ∙ window-add no_entry wq.capacity wq.ring wq.head rest 1 v.head_in
              (omega (arith, v.count_in))
          ∙ ap
              (λ i.
                window no_entry wq.capacity wq.ring wq.head rest
                ++ (get_or wq.ring i no_entry ∷ []))
              back,
    )
