-- ===== src/WorkQueue/Drain.antt =====
-- The worker alone, from wherever it is, runs what waits, and returns if it was told to stop.
use micr_osal.Common.{
  length, ℕ, zero, suc, ◌+◌, ◌-◌, ◌*◌, ◌≤◌, ◌<◌, ◌≡◌, ◌≢◌, refl, sym, ap, ◌∙◌, inl, inr, List, [],
  ◌∷◌, ◌++◌, true, false, arith, if◌then◌else◌, Bool-cases, append_assoc, append-nil, ◌==◌, ==→eq,
  ==→ne,
}
use micr_osal.Ring.{window}
use micr_osal.WorkQueue.{Entry, no_entry, WorkQueue, max_depth}
use micr_osal.WorkQueue.Worker.{
  Phase, waiting, holding, running, finishing, stopped, System, system, token_taken, front, popped,
  complete, work, Action, run, start,
}
use micr_osal.WorkQueue.Inv.{IsValid, queued, queued-popped, popped-IsValid}
use micr_osal.WorkQueue.Order.{live, token_taken-IsValid, complete-IsValid}
use micr_osal.WorkQueue.Progress.{
  owed, held, Awake, works_for, works_for-add, work-entry, work-token, work-stop, work-idle, ran,
  one_item, run-Sound, start-Sound,
}

-- After at most `n` steps of the worker alone, all that was live has been run, nothing waits, and the
-- worker has returned if it was told to, or waits.
abbrev pub Drained : System → ℕ → Type 0
Drained s n =
    (k : ℕ) × (k ≤ n)
    × ((works_for k s).executed ≡ live s)
    × ((works_for k s).queue.count ≡ 0)
    × ((works_for k s).phase ≡ (if s.queue.stop then stopped else waiting))

queued-empty : (wq : WorkQueue) → wq.count ≡ 0 → queued wq ≡ []
queued-empty wq z = ap (window no_entry wq.capacity wq.ring wq.head) z

module _ (ac : List Entry) where
  -- All the items that wait, one after another.
  all_items :
      (n : ℕ) (wq : WorkQueue) (ex : List Entry)
      → IsValid wq
      → wq.count ≡ n
      → n + owed wq ≤ wq.not_empty.count
      → (wq' : WorkQueue) × (works_for (n * 4) (system wq waiting ex ac)
          ≡ system wq' waiting (ex ++ queued wq) ac)
        × (wq'.count ≡ 0)
        × (wq'.stop ≡ wq.stop)
        × (owed wq' ≤ wq'.not_empty.count)
  unfolding works_for complete
  all_items zero wq ex v c t = (
    wq,
    ap (λ l. system wq waiting l ac)
        (sym (append-nil ex) ∙ ap (λ l. ex ++ l) (sym (queued-empty wq c))),
    c,
    refl,
    omega arith,
  )
  all_items (suc n) wq ex v c t =
      let more : wq.count ≢ 0 = omega arith in
      let v' = popped-IsValid (token_taken wq) (token_taken-IsValid wq v) more in
      let ih =
        all_items n (ran wq) (ex ++ (front wq ∷ []))
          (complete-IsValid (popped (token_taken wq)) (front wq) v') (omega arith) (ground arith) in
      let back : (ex ++ (front wq ∷ [])) ++ queued (ran wq) ≡ ex ++ queued wq =
        append_assoc ex (front wq ∷ []) (queued (ran wq))
        ∙ ap (λ l. ex ++ l)
            (sym (queued-popped (token_taken wq) (token_taken-IsValid wq v) more)) in
      (
        ih.0,
        ap (λ k. works_for k (system wq waiting ex ac)) {x = suc n * 4} {y = 4 + n * 4}
              (omega arith)
            ∙ works_for-add 4 (n * 4) (system wq waiting ex ac)
            ∙ ap (works_for (n * 4)) (one_item wq ex ac (omega arith) more)
            ∙ ih.1
            ∙ ap (λ l. system ih.0 waiting l ac) back,
        ih.2,
        ih.3,
        ih.4,
      )

-- Steps that lead to a system that drains.
Drained-after :
    (j n : ℕ) (s t : System)
    → works_for j s ≡ t
    → live t ≡ live s
    → t.queue.stop ≡ s.queue.stop
    → Drained t n
    → Drained s (j + n)
Drained-after j n s t e same b (k, small, run_all, none_left, there) =
    let path : works_for (j + k) s ≡ works_for k t = works_for-add j k s ∙ ap (works_for k) e in
    (
      j + k,
      omega arith,
      ap (λ x. x.executed) path ∙ run_all ∙ same,
      ap (λ x. x.queue.count) path ∙ none_left,
      ap (λ x. x.phase) path ∙ there ∙ ap (λ x. if x then stopped else waiting) b,
    )

-- From the wait for a token.
from_waiting :
    (wq : WorkQueue) (ex ac : List Entry)
    → IsValid wq
    → wq.count + owed wq ≤ wq.not_empty.count
    → Drained (system wq waiting ex ac) (wq.count * 4 + 2)
unfolding works_for
from_waiting wq ex ac v t =
    let (wq', path, none_left, same, tokens) = all_items ac wq.count wq ex v refl t in
    let s = system wq waiting ex ac in
    elim (Bool-cases wq.stop) [
      | inr b ↦ (
        wq.count * 4,
        omega arith,
        ap (λ x. x.executed) path,
        ap (λ x. x.queue.count) path ∙ none_left,
        ap (λ x. x.phase) path ∙ ap (λ x. if x then stopped else waiting) (sym b),
      )
      | inl b ↦
          let told : wq'.stop ≡ true = same ∙ b in
          let some_token : 0 < wq'.not_empty.count = ground (arith, told) in
          let last : works_for 2 (system wq' waiting (ex ++ queued wq) ac)
              ≡ system (token_taken wq') stopped (ex ++ queued wq) ac =
            ap (works_for 1) (work-token wq' (ex ++ queued wq) ac some_token)
            ∙ work-stop (token_taken wq') (ex ++ queued wq) ac none_left told in
          let whole : works_for (wq.count * 4 + 2) s
              ≡ system (token_taken wq') stopped (ex ++ queued wq) ac =
            works_for-add (wq.count * 4) 2 s ∙ ap (works_for 2) path ∙ last in
          (
            wq.count * 4 + 2,
            omega arith,
            ap (λ x. x.executed) whole,
            ap (λ x. x.queue.count) whole ∙ none_left,
            ap (λ x. x.phase) whole ∙ ap (λ x. if x then stopped else waiting) (sym b),
          )
    ]

Drained-more : (s : System) (m n : ℕ) → m ≤ n → Drained s m → Drained s n
Drained-more s m n h d = (d.0, omega (arith, d.1), d.2, d.3, d.4)

waiting-ne : waiting ≢ stopped
waiting-ne e = cc

-- From the item that it is about to run.
from_running :
    (wq : WorkQueue) (entry : Entry) (ex ac : List Entry)
    → IsValid wq
    → wq.count + owed wq ≤ wq.not_empty.count
    → Drained (system wq (running entry) ex ac) (wq.count * 4 + 4)
unfolding works_for work complete
from_running wq entry ex ac v t =
    let done = system (complete wq entry) waiting (ex ++ (entry ∷ [])) ac in
    Drained-more (system wq (running entry) ex ac) (2 + (wq.count * 4 + 2)) (wq.count * 4 + 4)
      (omega arith)
      (Drained-after 2 (wq.count * 4 + 2) (system wq (running entry) ex ac) done refl
        (append_assoc ex (entry ∷ []) (queued wq)) refl
        (from_waiting (complete wq entry) (ex ++ (entry ∷ [])) ac (complete-IsValid wq entry v) t))

-- With its token, on an empty queue.
empty_handed :
    (wq : WorkQueue) (ex ac : List Entry)
    → wq.count ≡ 0
    → Drained (system wq holding ex ac) (wq.count * 4 + 4)
unfolding works_for
empty_handed wq ex ac z =
    let all : ex ≡ ex ++ queued wq =
      sym (append-nil ex) ∙ ap (λ l. ex ++ l) (sym (queued-empty wq z)) in
    elim (Bool-cases wq.stop) [
      | inl b ↦
          let e = work-stop wq ex ac z b in
          (
            1,
            omega arith,
            ap (λ x. x.executed) e ∙ all,
            ap (λ x. x.queue.count) e ∙ z,
            ap (λ x. x.phase) e ∙ ap (λ x. if x then stopped else waiting) (sym b),
          )
      | inr b ↦
          let e = work-idle wq ex ac z b in
          (
            1,
            omega arith,
            ap (λ x. x.executed) e ∙ all,
            ap (λ x. x.queue.count) e ∙ z,
            ap (λ x. x.phase) e ∙ ap (λ x. if x then stopped else waiting) (sym b),
          )
    ]

-- From anywhere but its end.
from_phase :
    (wq : WorkQueue) (p : Phase) (ex ac : List Entry)
    → IsValid wq
    → Awake wq p
    → p ≢ stopped
    → Drained (system wq p ex ac) (wq.count * 4 + 4)
unfolding works_for work complete
from_phase wq p ex ac v (inl e) live_ = absurd (live_ e)
from_phase wq waiting ex ac v (inr t) live_ =
    Drained-more (system wq waiting ex ac) (wq.count * 4 + 2) (wq.count * 4 + 4) (omega arith)
      (from_waiting wq ex ac v (omega arith))
from_phase wq (running entry) ex ac v (inr t) live_ = from_running wq entry ex ac v (omega arith)
from_phase wq (finishing entry) ex ac v (inr t) live_ =
    let done = system (complete wq entry) waiting ex ac in
    Drained-more (system wq (finishing entry) ex ac) (1 + (wq.count * 4 + 2)) (wq.count * 4 + 4)
      (omega arith)
      (Drained-after 1 (wq.count * 4 + 2) (system wq (finishing entry) ex ac) done refl refl refl
        (from_waiting (complete wq entry) ex ac (complete-IsValid wq entry v) (omega arith)))
from_phase wq stopped ex ac v (inr t) live_ = absurd (live_ refl)
from_phase wq holding ex ac v (inr t) live_ = elim (Bool-cases (wq.count == 0)) [
  | inl z ↦ empty_handed wq ex ac (==→eq wq.count 0 z)
  | inr z ↦
      let more : wq.count ≢ 0 = ==→ne wq.count 0 z in
      let next = system (popped wq) (running (front wq)) ex ac in
      Drained-more (system wq holding ex ac) (1 + ((wq.count - 1) * 4 + 4)) (wq.count * 4 + 4)
        (omega arith)
        (Drained-after 1 ((wq.count - 1) * 4 + 4) (system wq holding ex ac) next
          (work-entry wq ex ac more) (ap (λ l. ex ++ l) (sym (queued-popped wq v more))) refl
          (from_running (popped wq) (front wq) ex ac (popped-IsValid wq v more) (omega arith)))
]

-- Where the worker is in a system that was reached, it runs what waits: after at most four steps for
-- each item that waits and four more, with no other thread taking a step, all the items that were live
-- have been run, none waits, and the worker has returned if it was told to stop and waits otherwise.
pub worker_drains :
    (ring : List Entry) (depth : ℕ) (xs : List Action)
    → 0 < depth
    → depth ≤ max_depth
    → depth ≤ length ring
    → (run (start ring depth) xs).phase ≢ stopped
    → let s = run (start ring depth) xs in Drained s (s.queue.count * 4 + 4)
worker_drains ring depth xs p h fits going =
    let s = run (start ring depth) xs in
    let sound = run-Sound (start ring depth) xs (start-Sound ring depth p h fits) in
    from_phase s.queue s.phase s.executed s.accepted (sound.0.0) sound.1 going

-- In a system that was reached, a worker that waits for a token that is not there has nothing to run
-- and was not told to stop.
pub no_lost_wakeup :
    (ring : List Entry) (depth : ℕ) (xs : List Action)
    → 0 < depth
    → depth ≤ max_depth
    → depth ≤ length ring
    → (run (start ring depth) xs).phase ≡ waiting
    → (run (start ring depth) xs).queue.not_empty.count ≡ 0
    → let wq = (run (start ring depth) xs).queue in (wq.count ≡ 0) × (wq.stop ≡ false)
no_lost_wakeup ring depth xs p h fits idle none_left =
    let s = run (start ring depth) xs in
    let sound = run-Sound (start ring depth) xs (start-Sound ring depth p h fits) in
    elim (sound.1) [
      | inl e ↦ absurd (waiting-ne (sym idle ∙ e))
      | inr t ↦ let unheld : held s.phase ≡ 0 = ap held idle in (omega arith, ground arith)
    ]
