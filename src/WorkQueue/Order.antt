-- ===== src/WorkQueue/Order.antt =====
-- What becomes of the items that were accepted: each is run at most once, in the order of submission.
use micr_osal.Common.{
  ℕ, ◌≤◌, ◌<◌, ◌≡◌, ◌≢◌, refl, sym, ap, ◌∙◌, ◌⊎◌, inl, inr, List, [], ◌∷◌, ◌++◌, true, false, ltb,
  ◌==◌, length, Bool-cases, lt-or-ge, ==→eq, ==→ne, append_assoc, append-nil, Sublist, nothing,
  Sublist-snoc, Sublist-left, Sublist-trans, subst,
}
use micr_osal.Semaphore.{max_count-give}
use micr_osal.WorkQueue.{Entry, WorkQueue, max_depth, stored, discard, request_stop}
use micr_osal.WorkQueue.Worker.{
  Phase, waiting, holding, running, finishing, stopped, System, system, token_taken, front, popped,
  dequeue, complete, work, Action, works, submits, cancels, stops, step, run, start,
}
use micr_osal.WorkQueue.Inv.{
  IsValid, queued, enqueue-full, enqueue-room, queued-pushed, pushed-IsValid, discard-IsValid,
  queued-popped, popped-IsValid, fresh-IsValid,
}

-- The item that the worker has taken and not run yet.
abbrev pub hand : Phase → List Entry
hand waiting = []
hand holding = []
hand (running entry) = entry ∷ []
hand (finishing entry) = []
hand stopped = []

-- What has been run, is in hand or waits, oldest first.
abbrev pub live : System → List Entry
live s = s.executed ++ (hand s.phase ++ queued s.queue)

pub dequeue-cases :
    (wq : WorkQueue)
    → ((wq.count ≡ 0) × (wq.stop ≡ true) × (dequeue wq ≡ (stopped, wq)))
      ⊎ ((wq.count ≡ 0) × (wq.stop ≡ false) × (dequeue wq ≡ (waiting, wq)))
      ⊎ ((wq.count ≢ 0) × (dequeue wq ≡ (running (front wq), popped wq)))
unfolding dequeue
dequeue-cases wq = elim (Bool-cases (wq.count == 0)) [
  | inl z ↦ elim (Bool-cases wq.stop) [
    | inl b ↦ inl (==→eq wq.count 0 z, b, rw (z, b) refl)
    | inr b ↦ inr (inl (==→eq wq.count 0 z, b, rw (z, b) refl))
  ]
  | inr z ↦ inr (inr (==→ne wq.count 0 z, rw z refl))
]

pub token_taken-IsValid : (wq : WorkQueue) → IsValid wq → IsValid (token_taken wq)
token_taken-IsValid wq v = record {
  positive = v.positive;
  small = v.small;
  storage = v.storage;
  head_in = v.head_in;
  count_in = v.count_in;
  tail_at = v.tail_at;
  sem_max = v.sem_max;
}

pub complete-IsValid : (wq : WorkQueue) (entry : Entry) → IsValid wq → IsValid (complete wq entry)
unfolding complete
complete-IsValid wq entry v = record {
  positive = v.positive;
  small = v.small;
  storage = v.storage;
  head_in = v.head_in;
  count_in = v.count_in;
  tail_at = v.tail_at;
  sem_max = v.sem_max;
}

-- A step of the worker loses and adds nothing, and keeps the queue valid.
pub work-live :
    (wq : WorkQueue) (p : Phase) (ex ac : List Entry)
    → IsValid wq
    → let s = system wq p ex ac in
      (live (work s) ≡ live s) × IsValid (work s).queue × ((work s).accepted ≡ ac)
unfolding work complete
work-live wq waiting ex ac v = elim (Bool-cases (ltb 0 wq.not_empty.count)) [
  | inl t ↦ rw t (refl, token_taken-IsValid wq v, refl)
  | inr t ↦ rw t (refl, v, refl)
]
work-live wq holding ex ac v = elim (dequeue-cases wq) [
  | inl (z, b, e) ↦ rw e (refl, v, refl)
  | inr (inl (z, b, e)) ↦ rw e (refl, v, refl)
  | inr (inr (z, e)) ↦
      rw e (ap (λ l. ex ++ l) (sym (queued-popped wq v z)), popped-IsValid wq v z, refl)
]
work-live wq (running entry) ex ac v = (append_assoc ex (entry ∷ []) (queued wq), v, refl)
work-live wq (finishing entry) ex ac v = (refl, complete-IsValid wq entry v, refl)
work-live wq stopped ex ac v = (refl, v, refl)

request_stop-IsValid : (wq : WorkQueue) → IsValid wq → IsValid (request_stop wq)
unfolding request_stop
request_stop-IsValid wq v = record {
  positive = v.positive;
  small = v.small;
  storage = v.storage;
  head_in = v.head_in;
  count_in = v.count_in;
  tail_at = v.tail_at;
  sem_max = max_count-give wq.not_empty ∙ v.sem_max;
}

-- How a step changes what is live and what was accepted: neither, or both by one item behind, or the
-- waiting items are dropped.
abbrev pub Moved : System → System → Type 0
Moved s t =
    ((live t ≡ live s) × (t.accepted ≡ s.accepted))
    ⊎ ((e : Entry) × (live t ≡ live s ++ (e ∷ [])) × (t.accepted ≡ s.accepted ++ (e ∷ [])))

submits-Moved :
    (s : System) (f a : ℕ)
    → IsValid s.queue
    → Moved s (step s (submits f a)) × IsValid (step s (submits f a)).queue
unfolding step
submits-Moved s f a v = elim (lt-or-ge s.queue.count s.queue.capacity) [
  | inl room ↦
      let e = stored s.queue f a in
      rw (enqueue-room s.queue f a room) (
        inr (
          e,
          ap (λ l. s.executed ++ (hand s.phase ++ l)) (queued-pushed s.queue f a v room)
              ∙ ap (λ l. s.executed ++ l) (sym (append_assoc (hand s.phase) (queued s.queue) _))
              ∙ sym (append_assoc s.executed (hand s.phase ++ queued s.queue) (e ∷ [])),
          refl,
        ),
        pushed-IsValid s.queue f a v room,
      )
  | inr full ↦ rw (enqueue-full s.queue f a full) (inl (refl, refl), v)
]

-- No item is dropped by a step that cancels nothing.
abbrev pub Cancels : Action → Type 0
Cancels works = ⊥
Cancels (submits f a) = ⊥
Cancels cancels = Unit
Cancels stops = ⊥

pub step-Moved :
    (s : System) (a : Action)
    → IsValid s.queue
    → ¬ Cancels a
    → Moved s (step s a) × IsValid (step s a).queue
unfolding step request_stop
step-Moved s works v n =
    let w = work-live s.queue s.phase s.executed s.accepted v in (inl (w.0, w.2), w.1)
step-Moved s (submits f a) v n = submits-Moved s f a v
step-Moved s cancels v n = absurd (n tt)
step-Moved s stops v n = (inl (refl, refl), request_stop-IsValid s.queue v)

-- Items that wait are dropped by a cancellation, and no others.
pub cancels-live :
    (s : System)
    → (live s ≡ live (step s cancels) ++ queued s.queue) × ((step s cancels).accepted ≡ s.accepted)
unfolding step discard
cancels-live s = (
  ap (λ l. s.executed ++ (l ++ queued s.queue)) (sym (append-nil (hand s.phase)))
      ∙ sym (append_assoc s.executed (hand s.phase ++ []) (queued s.queue)),
  refl,
)

-- The items that are live were accepted, and stand in the order of their acceptance.
abbrev pub Ordered : System → Type 0
Ordered s = IsValid s.queue × Sublist (live s) s.accepted

Moved-Sublist :
    (s t : System) → Moved s t → Sublist (live s) s.accepted → Sublist (live t) t.accepted
Moved-Sublist s t (inl (l, a)) h = rw (l, a) h
Moved-Sublist s t (inr (e, l, a)) h = rw (l, a) (Sublist-snoc e h)

pub step-Ordered : (s : System) (a : Action) → Ordered s → Ordered (step s a)
unfolding step
step-Ordered s works (v, h) =
    let m = step-Moved s works v (λ x. x) in (m.1, Moved-Sublist s (step s works) m.0 h)
step-Ordered s (submits f b) (v, h) =
    let m = step-Moved s (submits f b) v (λ x. x) in
    (m.1, Moved-Sublist s (step s (submits f b)) m.0 h)
step-Ordered s cancels (v, h) =
    let c = cancels-live s in
    (
      discard-IsValid s.queue v,
      Sublist-trans h (
          subst (Sublist (live (step s cancels))) (sym c.0)
            (Sublist-left (live (step s cancels)) (queued s.queue))),
    )
step-Ordered s stops (v, h) =
    let m = step-Moved s stops v (λ x. x) in (m.1, Moved-Sublist s (step s stops) m.0 h)

pub run-Ordered : (s : System) (xs : List Action) → Ordered s → Ordered (run s xs)
unfolding run
run-Ordered s [] o = o
run-Ordered s (x ∷ xs) o = run-Ordered (step s x) xs (step-Ordered s x o)

pub start-Ordered :
    (ring : List Entry) (depth : ℕ)
    → 0 < depth
    → depth ≤ max_depth
    → depth ≤ length ring
    → Ordered (start ring depth)
start-Ordered ring depth p h fits = (fresh-IsValid ring depth p h fits, nothing)

-- Whatever order the worker and the threads that submit, cancel and stop take their steps in, on a
-- queue as it was created, the items that were run, then the one in the worker's hand, then those that
-- wait are items that were accepted, in the order of their acceptance and each at most once.
pub run_in_order :
    (ring : List Entry) (depth : ℕ) (xs : List Action)
    → 0 < depth
    → depth ≤ max_depth
    → depth ≤ length ring
    → let s = run (start ring depth) xs in
      Sublist (s.executed ++ (hand s.phase ++ queued s.queue)) s.accepted
run_in_order ring depth xs p h fits =
    (run-Ordered (start ring depth) xs (start-Ordered ring depth p h fits)).1

-- No step of the list cancels.
abbrev pub Uncancelled : List Action → Type 0
Uncancelled [] = Unit
Uncancelled (x ∷ xs) = (¬ Cancels x) × Uncancelled xs

Moved-eq : (s t : System) → Moved s t → live s ≡ s.accepted → live t ≡ t.accepted
Moved-eq s t (inl (l, a)) h = l ∙ h ∙ sym a
Moved-eq s t (inr (e, l, a)) h = l ∙ ap (λ q. q ++ (e ∷ [])) h ∙ sym a

run_keeps_live :
    (s : System) (xs : List Action)
    → IsValid s.queue
    → live s ≡ s.accepted
    → Uncancelled xs
    → live (run s xs) ≡ (run s xs).accepted
unfolding run
run_keeps_live s [] v e u = e
run_keeps_live s (x ∷ xs) v e u =
    let m = step-Moved s x v u.0 in
    run_keeps_live (step s x) xs m.1 (Moved-eq s (step s x) m.0 e) u.1

-- Where no thread cancels, no accepted item is lost: those that were run, then the one in the worker's
-- hand, then those that wait are all that were accepted, in that order.
pub run_keeps_all :
    (ring : List Entry) (depth : ℕ) (xs : List Action)
    → 0 < depth
    → depth ≤ max_depth
    → depth ≤ length ring
    → Uncancelled xs
    → let s = run (start ring depth) xs in
      s.executed ++ (hand s.phase ++ queued s.queue) ≡ s.accepted
run_keeps_all ring depth xs p h fits u =
    run_keeps_live (start ring depth) xs (fresh-IsValid ring depth p h fits) refl u
