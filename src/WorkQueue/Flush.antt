-- ===== src/WorkQueue/Flush.antt =====
-- osal_work_queue_flush: the sequence that it waits for separates what was submitted before it from
-- what comes later.
use micr_osal.Common.{
  ℕ, ◌+◌, ◌≤◌, ◌<◌, ◌≡◌, ◌≢◌, refl, sym, ap, ◌∙◌, ◌⊎◌, inl, inr, List, [], ◌∷◌, ◌++◌, Option, some,
  true, false, arith, ltb, ltb→le, ◌==◌, ==→eq, ==→ne, if◌then◌else◌, length, length-append,
  append-nil, get_or, size_mod, Bool-cases, lt-or-ge, append_assoc, subst,
}
use micr_osal.Error.{Result, ok}
use micr_osal.CondWait.{
  Turn, Reached, cond_wait, cond_wait-ends, returned-eq_some, but_timeout, but_timeout-ne,
}
use micr_osal.Ring.{window}
use micr_osal.WorkQueue.{
  Entry, no_entry, WorkQueue, max_depth, retreat_index, stored, pushed, discard, request_stop,
  flush_target, unfinished, flush,
}
use micr_osal.WorkQueue.Worker.{
  Phase, waiting, holding, running, finishing, stopped, System, system, complete, work, Action,
  works, submits, cancels, stops, step, run, start,
}
use micr_osal.WorkQueue.Inv.{
  IsValid, queued, enqueue-full, enqueue-room, queued-pushed, queued-popped, queued-last,
}
use micr_osal.WorkQueue.Order.{
  work-live, dequeue-cases, Ordered, step-Ordered, run-Ordered, start-Ordered,
}
use micr_osal.WorkQueue.Rising.{
  UpTo, Above, Rising, Rising-UpTo, Rising-snoc, Rising-front, Rising-Above,
}

-- The item that the worker has taken and not completed.
abbrev pub taken_item : Phase → List Entry
taken_item waiting = []
taken_item holding = []
taken_item (running entry) = entry ∷ []
taken_item (finishing entry) = entry ∷ []
taken_item stopped = []

-- What was accepted, not cancelled, and is not completed.
abbrev pub open_items : System → List Entry
open_items s = taken_item s.phase ++ queued s.queue

abbrev Active : WorkQueue → Phase → Type 0
Active wq waiting = wq.worker_active ≡ false
Active wq holding = wq.worker_active ≡ false
Active wq (running entry) = (wq.worker_active ≡ true) × (wq.active_sequence ≡ entry.sequence)
Active wq (finishing entry) = (wq.worker_active ≡ true) × (wq.active_sequence ≡ entry.sequence)
Active wq stopped = wq.worker_active ≡ false

-- The sequences of the open items rise from the completed to the submitted one.
abbrev InSequence : WorkQueue → Phase → Type 0
InSequence wq p =
    Rising wq.completed_sequence (taken_item p ++ queued wq) wq.submitted_sequence × Active wq p

work-InSequence :
    (wq : WorkQueue) (p : Phase) (ex ac : List Entry)
    → IsValid wq
    → InSequence wq p
    → let s = work (system wq p ex ac) in
      InSequence s.queue s.phase × (s.queue.submitted_sequence ≡ wq.submitted_sequence)
unfolding work complete
work-InSequence wq waiting ex ac v i = elim (Bool-cases (ltb 0 wq.not_empty.count)) [
  | inl t ↦ rw t (i, refl)
  | inr t ↦ rw t (i, refl)
]
work-InSequence wq holding ex ac v i = elim (dequeue-cases wq) [
  | inl (z, b, e) ↦ rw e (i, refl)
  | inr (inl (z, b, e)) ↦ rw e (i, refl)
  | inr (inr (z, e)) ↦
      let r =
        subst (λ l. Rising wq.completed_sequence l wq.submitted_sequence) (queued-popped wq v z)
          i.0 in
      rw e ((r, (refl, refl)), refl)
]
work-InSequence wq (running entry) ex ac v i = (i, refl)
work-InSequence wq (finishing entry) ex ac v i = ((i.0.1, refl), refl)
work-InSequence wq stopped ex ac v i = (i, refl)

Active-same :
    (wq wq' : WorkQueue) (p : Phase)
    → wq'.worker_active ≡ wq.worker_active
    → wq'.active_sequence ≡ wq.active_sequence
    → Active wq p
    → Active wq' p
Active-same wq wq' waiting e f a = e ∙ a
Active-same wq wq' holding e f a = e ∙ a
Active-same wq wq' (running entry) e f a = (e ∙ a.0, f ∙ a.1)
Active-same wq wq' (finishing entry) e f a = (e ∙ a.0, f ∙ a.1)
Active-same wq wq' stopped e f a = e ∙ a

pushed-InSequence :
    (wq : WorkQueue) (p : Phase) (f a : ℕ)
    → IsValid wq
    → wq.count < wq.capacity
    → wq.submitted_sequence + 1 < size_mod
    → InSequence wq p
    → InSequence (pushed wq f a) p
pushed-InSequence wq p f a v room small i =
    let e = stored wq f a in
    let more =
      Rising-snoc wq.completed_sequence (taken_item p ++ queued wq) wq.submitted_sequence e
        (pushed wq f a).submitted_sequence i.0 (omega arith) (omega arith) in
    let behind : (taken_item p ++ queued wq) ++ (e ∷ []) ≡ taken_item p ++ queued (pushed wq f a) =
      append_assoc (taken_item p) (queued wq) (e ∷ [])
      ∙ ap (λ l. taken_item p ++ l) (sym (queued-pushed wq f a v room)) in
    (
      subst (λ l. Rising wq.completed_sequence l (pushed wq f a).submitted_sequence) behind more,
      Active-same wq (pushed wq f a) p refl refl i.1,
    )

discard-InSequence : (wq : WorkQueue) (p : Phase) → InSequence wq p → InSequence (discard wq) p
unfolding discard
discard-InSequence wq p i = (
  subst (λ l. Rising wq.completed_sequence l wq.submitted_sequence)
      (sym (append-nil (taken_item p)))
      (Rising-front wq.completed_sequence (taken_item p) (queued wq) wq.submitted_sequence i.0),
  Active-same wq (discard wq) p refl refl i.1,
)

request_stop-InSequence :
    (wq : WorkQueue) (p : Phase) → InSequence wq p → InSequence (request_stop wq) p
unfolding request_stop
request_stop-InSequence wq p i = (i.0, Active-same wq (request_stop wq) p refl refl i.1)

-- The sequences, and that they count the accepted items.
abbrev Counted : System → Type 0
Counted s = InSequence s.queue s.phase × (s.queue.submitted_sequence ≡ length s.accepted)

step-Counted :
    (s : System) (x : Action)
    → IsValid s.queue
    → length s.accepted + 1 < size_mod
    → Counted s
    → Counted (step s x) × (length (step s x).accepted ≤ length s.accepted + 1)
unfolding step discard request_stop
step-Counted s works v small c =
    let w = work-InSequence s.queue s.phase s.executed s.accepted v c.0 in
    let same = (work-live s.queue s.phase s.executed s.accepted v).2 in
    ((w.0, w.1 ∙ c.1 ∙ ap length (sym same)), omega (arith, ap length same))
step-Counted s (submits f b) v small c = elim (lt-or-ge s.queue.count s.queue.capacity) [
  | inl room ↦
      let e = stored s.queue f b in
      let longer = length-append s.accepted (e ∷ []) in
      rw (enqueue-room s.queue f b room) (
        (
          pushed-InSequence s.queue s.phase f b v room (omega (arith, c.1)) c.0,
          omega (arith, c.1, longer),
        ),
        omega (arith, longer),
      )
  | inr full ↦ rw (enqueue-full s.queue f b full) (c, omega arith)
]
step-Counted s cancels v small c = ((discard-InSequence s.queue s.phase c.0, c.1), omega arith)
step-Counted s stops v small c = ((request_stop-InSequence s.queue s.phase c.0, c.1), omega arith)

run-Counted :
    (s : System) (xs : List Action)
    → Ordered s
    → length s.accepted + length xs < size_mod
    → Counted s
    → Counted (run s xs) × (length (run s xs).accepted ≤ length s.accepted + length xs)
unfolding run
run-Counted s [] o small c = (c, omega arith)
run-Counted s (x ∷ xs) o small c =
    let one = step-Counted s x o.0 (omega arith) c in
    let more = run-Counted (step s x) xs (step-Ordered s x o) (omega (arith, one.1)) one.0 in
    (more.0, omega (arith, one.1, more.1))

-- Everything open is at most the sequence that a flush waits for.
target-UpTo :
    (wq : WorkQueue) (p : Phase)
    → IsValid wq
    → InSequence wq p
    → UpTo (flush_target wq) (taken_item p ++ queued wq)
unfolding flush_target
target-UpTo wq p v i = elim (Bool-cases (wq.count == 0)) [
  | inr z ↦
      let last = queued-last wq v (==→ne wq.count 0 z) in
      let e = get_or wq.ring (retreat_index wq.tail wq.capacity) no_entry in
      let split : taken_item p ++ queued wq ≡ (taken_item p ++ last.0) ++ (e ∷ []) =
        ap (λ l. taken_item p ++ l) last.1 ∙ sym (append_assoc (taken_item p) last.0 (e ∷ [])) in
      rw (z, split)
        (Rising-UpTo wq.completed_sequence (taken_item p ++ last.0) e wq.submitted_sequence
          (subst (λ l. Rising wq.completed_sequence l wq.submitted_sequence) split i.0))
  | inl z ↦ rw (z, queued-empty wq (==→eq wq.count 0 z)) (taken-UpTo wq p i.1)
]
  where
    queued-empty : (wq : WorkQueue) → wq.count ≡ 0 → queued wq ≡ []
    queued-empty wq e = ap (window no_entry wq.capacity wq.ring wq.head) e

    taken-UpTo :
        (wq : WorkQueue) (p : Phase)
        → Active wq p
        → UpTo
            (if wq.worker_active then wq.active_sequence else wq.completed_sequence)
            (taken_item p ++ [])
    taken-UpTo wq waiting a = tt
    taken-UpTo wq holding a = tt
    taken-UpTo wq (running entry) a = rw (a.0) (omega (arith, a.1), tt)
    taken-UpTo wq (finishing entry) a = rw (a.0) (omega (arith, a.1), tt)
    taken-UpTo wq stopped a = tt

-- A flush that starts in a system that was reached waits for a sequence that is at least that of every
-- item which is open then, running or waiting; once the queue has completed that sequence, after any
-- further steps, every item that is open then has a later one: nothing is left of what the flush found.
-- The steps in all are fewer than a std::size_t can count.
pub flush_frontier :
    (ring : List Entry) (depth : ℕ) (xs ys : List Action)
    → 0 < depth
    → depth ≤ max_depth
    → depth ≤ length ring
    → length xs + length ys < size_mod
    → unfinished
        (flush_target (run (start ring depth) xs).queue)
        (run (run (start ring depth) xs) ys).queue
      ≡ false
    → let s = run (start ring depth) xs in
      let target = flush_target s.queue in
      UpTo target (open_items s) × Above target (open_items (run s ys))
flush_frontier ring depth xs ys p h fits small done =
    let s₀ = start ring depth in
    let s = run s₀ xs in
    let target = flush_target s.queue in
    let o₀ = start-Ordered ring depth p h fits in
    let o = run-Ordered s₀ xs o₀ in
    let c₀ : Counted s₀ = ((omega arith, refl), refl) in
    let c = run-Counted s₀ xs o₀ (omega arith) c₀ in
    let d = run-Counted s ys o (omega (arith, c.1)) c.0 in
    (
      target-UpTo s.queue s.phase o.0 (c.0.0),
      Rising-Above target (run s ys).queue.completed_sequence (open_items (run s ys))
          (run s ys).queue.submitted_sequence
          (ltb→le (run s ys).queue.completed_sequence target done) (d.0.0.0),
    )

-- A flush that returned, whatever the other threads did while it waited, changed nothing itself: it
-- succeeded on a queue that had completed the sequence which the flush found at its start, or failed.
pub flush_returned :
    (wq : WorkQueue) (ticks start_at : ℕ) (ts : List (Turn WorkQueue)) (r : Result)
    (h : Option WorkQueue)
    → flush (some wq) ticks start_at ts ≡ some (r, h)
    → (seen : WorkQueue) × Reached ts wq seen
      × (h ≡ some seen)
      × (((r ≡ ok) × (flush_target wq ≤ seen.completed_sequence)) ⊎ (r ≢ ok))
unfolding flush
flush_returned wq ticks start_at ts r h e =
    let test = unfinished (flush_target wq) in
    let q = returned-eq_some (cond_wait test (λ x. x) but_timeout ticks start_at wq ts) e in
    let (seen, there, ended) =
      cond_wait-ends test (λ x. x) but_timeout ticks start_at wq ts but_timeout-ne q.1 in
    elim ended [
      | inl (good, free, same) ↦ (
        seen,
        there,
        q.2 ∙ ap some same,
        inl (good, ltb→le seen.completed_sequence (flush_target wq) free),
      )
      | inr (bad, same) ↦ (seen, there, q.2 ∙ ap some same, inr bad)
    ]
