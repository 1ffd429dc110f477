-- ===== src/WorkQueue/Progress.antt =====
-- The tokens of the worker's semaphore: no submission and no stop is missed, and the worker alone runs
-- what waits.
use micr_osal.Common.{
  length, ℕ, zero, suc, ◌+◌, ◌≤◌, ◌<◌, ◌≡◌, ◌≢◌, refl, ap, ◌∙◌, ◌⊎◌, inl, inr, List, [], ◌∷◌, ◌++◌,
  true, false, arith, if◌then◌else◌, lt-or-ge, lt→ltb,
}
use micr_osal.Semaphore.{count-give}
use micr_osal.WorkQueue.{Entry, WorkQueue, max_depth, discard, request_stop}
use micr_osal.WorkQueue.Worker.{
  Phase, waiting, holding, running, finishing, stopped, System, system, token_taken, front, popped,
  dequeue, complete, work, Action, works, submits, cancels, stops, step, run, start,
}
use micr_osal.WorkQueue.Inv.{IsValid, enqueue-full, enqueue-room, count-drain}
use micr_osal.WorkQueue.Order.{dequeue-cases, Ordered, step-Ordered, start-Ordered}

-- The token that a stop is worth, and the one that the worker has taken.
abbrev pub owed : WorkQueue → ℕ
owed wq = if wq.stop then 1 else 0

abbrev pub held : Phase → ℕ
held waiting = 0
held holding = 1
held (running entry) = 0
held (finishing entry) = 0
held stopped = 0

-- There is a token for each item and for a stop, unless the worker has returned.
abbrev pub Awake : WorkQueue → Phase → Type 0
Awake wq p = (p ≡ stopped) ⊎ (wq.count + owed wq ≤ wq.not_empty.count + held p)

work-Awake :
    (wq : WorkQueue) (p : Phase) (ex ac : List Entry)
    → Awake wq p
    → let s = work (system wq p ex ac) in Awake s.queue s.phase
unfolding work complete
work-Awake wq waiting ex ac a = elim (lt-or-ge 0 wq.not_empty.count) [
  | inl t ↦ rw (lt→ltb 0 wq.not_empty.count t) (ground arith)
  | inr t ↦ ground arith
]
work-Awake wq holding ex ac a = elim (dequeue-cases wq) [
  | inl (z, b, e) ↦ rw e (inl refl)
  | inr (inl (z, b, e)) ↦ rw e (ground arith)
  | inr (inr (z, e)) ↦ rw e (ground arith)
]
work-Awake wq (running entry) ex ac a = ground arith
work-Awake wq (finishing entry) ex ac a = ground arith
work-Awake wq stopped ex ac a = inl refl

discard-Awake : (wq : WorkQueue) (p : Phase) → Awake wq p → Awake (discard wq) p
unfolding discard
discard-Awake wq p (inl e) = inl e
discard-Awake wq p (inr h) = inr (omega (arith, count-drain wq.count wq.not_empty))

request_stop-Awake :
    (wq : WorkQueue) (p : Phase) → IsValid wq → Awake wq p → Awake (request_stop wq) p
unfolding request_stop
request_stop-Awake wq p v (inl e) = inl e
request_stop-Awake wq p v (inr h) =
    inr (ground (arith, count-give wq.not_empty, v.sem_max, v.count_in))

step-Awake :
    (s : System) (x : Action)
    → IsValid s.queue
    → Awake s.queue s.phase
    → Awake (step s x).queue (step s x).phase
unfolding step
step-Awake s works v a = work-Awake s.queue s.phase s.executed s.accepted a
step-Awake s (submits f b) v a = elim (lt-or-ge s.queue.count s.queue.capacity) [
  | inl room ↦
      let given = count-give s.queue.not_empty in
      rw (enqueue-room s.queue f b room) (ground (arith, v.sem_max))
  | inr full ↦ rw (enqueue-full s.queue f b full) a
]
step-Awake s cancels v a = discard-Awake s.queue s.phase a
step-Awake s stops v a = request_stop-Awake s.queue s.phase v a

-- Both invariants, along any steps.
abbrev pub Sound : System → Type 0
Sound s = Ordered s × Awake s.queue s.phase

pub run-Sound : (s : System) (xs : List Action) → Sound s → Sound (run s xs)
unfolding run
run-Sound s [] o = o
run-Sound s (x ∷ xs) o = run-Sound (step s x) xs (step-Ordered s x o.0, step-Awake s x (o.0.0) o.1)

pub start-Sound :
    (ring : List Entry) (depth : ℕ)
    → 0 < depth
    → depth ≤ max_depth
    → depth ≤ length ring
    → Sound (start ring depth)
start-Sound ring depth p h fits = (start-Ordered ring depth p h fits, inr (omega arith))

-- The worker alone, for some steps.
unfoldable pub works_for : ℕ → System → System
works_for zero s = s
works_for (suc n) s = works_for n (work s)

pub works_for-add : (m n : ℕ) (s : System) → works_for (m + n) s ≡ works_for n (works_for m s)
unfolding works_for
works_for-add zero n s = ap (λ k. works_for k s) {x = 0 + n} {y = n} (omega arith)
works_for-add (suc m) n s =
    ap (λ k. works_for k s) {x = suc m + n} {y = suc (m + n)} (omega arith)
    ∙ works_for-add m n (work s)

module _ (wq : WorkQueue) (ex ac : List Entry) where
  pub work-token :
      0 < wq.not_empty.count
      → work (system wq waiting ex ac) ≡ system (token_taken wq) holding ex ac
  unfolding work
  work-token t = rw (lt→ltb 0 wq.not_empty.count t) refl

  pub work-entry :
      wq.count ≢ 0 → work (system wq holding ex ac) ≡ system (popped wq) (running (front wq)) ex ac
  unfolding work
  work-entry h = elim (dequeue-cases wq) [
    | inl (z, b, e) ↦ absurd (h z)
    | inr (inl (z, b, e)) ↦ absurd (h z)
    | inr (inr (z, e)) ↦ rw e refl
  ]

  pub work-stop :
      wq.count ≡ 0 → wq.stop ≡ true → work (system wq holding ex ac) ≡ system wq stopped ex ac
  unfolding work dequeue
  work-stop z b = rw (z, b) refl

  pub work-idle :
      wq.count ≡ 0 → wq.stop ≡ false → work (system wq holding ex ac) ≡ system wq waiting ex ac
  unfolding work dequeue
  work-idle z b = rw (z, b) refl

-- The queue after the worker has taken a token and an item and has run it.
abbrev pub ran : WorkQueue → WorkQueue
ran wq = complete (popped (token_taken wq)) (front wq)

pub one_item :
    (wq : WorkQueue) (ex ac : List Entry)
    → 0 < wq.not_empty.count
    → wq.count ≢ 0
    → works_for 4 (system wq waiting ex ac) ≡ system (ran wq) waiting (ex ++ (front wq ∷ [])) ac
unfolding works_for work
one_item wq ex ac t h =
    ap (works_for 3) (work-token wq ex ac t)
    ∙ ap (works_for 2) (work-entry (token_taken wq) ex ac h)
