-- ===== src/Condvar/Seats.antt =====
-- The waiter slots of src/common/emulated_condvar.inl, however threads wait, wake, give up and notify.
use micr_osal.Common.{
  ℕ, zero, suc, ◌+◌, ◌≤◌, ◌≡◌, refl, sym, ap, ◌∙◌, inl, inr, List, [], ◌∷◌, some, Bool, true, false,
  ◌==◌, if◌then◌else◌, get_or, arith, Bool-cases, Option-cases, some-eq, none-ne, subst,
}
use micr_osal.Error.{Result}
use micr_osal.Semaphore.{Semaphore, give, try_take}
use micr_osal.Condvar.{
  Thread, outside, blocked, woken, gave_up, Waiter, Condvar, free_slot, fresh, taken, claim, enter,
  update, has_left, take, fail, vacated, leave, waits, signal, signal_first, signal_all, notify,
}

-- A thread's step: it begins a wait, its take succeeds if it can, its take fails, it gives its slot back,
-- or it notifies.
pub data Action : Type 0 where
  enters : Action
  takes : ℕ → Action
  fails : ℕ → Result → Action
  leaves : ℕ → Action
  notifies_one notifies_all : Action

unfoldable pub step : Condvar → Action → Condvar
step cv enters = (enter cv).1
step cv (takes i) = record cv { waiters = update take i cv.waiters }
step cv (fails i r) = record cv { waiters = update (fail r) i cv.waiters }
step cv (leaves i) = leave cv i
step cv notifies_one = notify signal_first cv
step cv notifies_all = notify signal_all cv

unfoldable pub run : Condvar → List Action → Condvar
run cv [] = cv
run cv (a ∷ rest) = run (step cv a) rest

-- What holds of a slot: a free one is not in use; a blocked thread has a token exactly if it was
-- signalled since it took the slot; a thread that woke was.
abbrev pub Seat : Thread → Waiter → Type 0
Seat outside w = w.in_use ≡ false
Seat blocked w = (w.in_use ≡ true) × (w.sem.count ≡ (if w.signalled then 1 else 0))
Seat woken w = (w.in_use ≡ true) × (w.signalled ≡ true)
Seat (gave_up r) w = w.in_use ≡ true

abbrev pub Seated : Waiter → Type 0
Seated w = (w.sem.max_count ≡ 1) × (w.sem.count ≤ 1) × Seat w.thread w

abbrev pub AllSeated : List Waiter → Type 0
AllSeated [] = Unit
AllSeated (w ∷ ws) = Seated w × AllSeated ws

-- How many slots are in use.
unfoldable pub in_use_count : List Waiter → ℕ
in_use_count [] = 0
in_use_count (w ∷ ws) = (if w.in_use then 1 else 0) + in_use_count ws

pub record IsValid (cv : Condvar) : Type 0 where
  pub seated : AllSeated cv.waiters
  pub counted : cv.n_waiters ≡ in_use_count cv.waiters

update-AllSeated :
    (f : Waiter → Waiter) (i : ℕ) (ws : List Waiter)
    → ((w : Waiter) → Seated w → Seated (f w))
    → AllSeated ws
    → AllSeated (update f i ws)
unfolding update
update-AllSeated f i [] g a = tt
update-AllSeated f zero (w ∷ ws) g a = (g w a.0, a.1)
update-AllSeated f (suc i) (w ∷ ws) g a = (a.0, update-AllSeated f i ws g a.1)

update-in_use_count :
    (f : Waiter → Waiter) (i : ℕ) (ws : List Waiter)
    → ((w : Waiter) → (f w).in_use ≡ w.in_use)
    → in_use_count (update f i ws) ≡ in_use_count ws
unfolding update in_use_count
update-in_use_count f i [] g = refl
update-in_use_count f zero (w ∷ ws) g = rw (g w) refl
update-in_use_count f (suc i) (w ∷ ws) g = rw (update-in_use_count f i ws g) refl

-- The slot with its fields apart.
abbrev slot_of : Semaphore → Bool → Bool → Thread → Waiter
slot_of sem in_use signalled thread = record {
  sem = sem;
  in_use = in_use;
  signalled = signalled;
  thread = thread;
}

take-slot_of :
    (sem : Semaphore) (u g : Bool) (t : Thread)
    → Seated (slot_of sem u g t)
    → Seated (take (slot_of sem u g t))
unfolding take try_take
take-slot_of sem u g outside s = s
take-slot_of sem u g woken s = s
take-slot_of sem u g (gave_up r) s = s
take-slot_of sem u true blocked s = ground arith
take-slot_of sem u false blocked s = ground arith

fail-slot_of :
    (r : Result) (sem : Semaphore) (u g : Bool) (t : Thread)
    → Seated (slot_of sem u g t)
    → Seated (fail r (slot_of sem u g t))
unfolding fail
fail-slot_of r sem u g outside s = s
fail-slot_of r sem u g woken s = s
fail-slot_of r sem u g (gave_up r') s = s
fail-slot_of r sem u g blocked s = (s.0, s.1, s.2.0)

signal-slot_of :
    (sem : Semaphore) (u g : Bool) (t : Thread)
    → Seated (slot_of sem u g t)
    → Seated (let w = slot_of sem u g t in if waits w then signal w else w)
unfolding give
signal-slot_of sem false g t s = s
signal-slot_of sem true true t s = s
signal-slot_of sem true false outside s = ground arith
signal-slot_of sem true false woken s = ground arith
signal-slot_of sem true false (gave_up r') s = ground arith
signal-slot_of sem true false blocked s = ground arith

take-Seated : (w : Waiter) → Seated w → Seated (take w)
take-Seated w s = take-slot_of w.sem w.in_use w.signalled w.thread s

fail-Seated : (r : Result) (w : Waiter) → Seated w → Seated (fail r w)
fail-Seated r w s = fail-slot_of r w.sem w.in_use w.signalled w.thread s

signal-Seated : (w : Waiter) → Seated w → Seated (if waits w then signal w else w)
signal-Seated w s = signal-slot_of w.sem w.in_use w.signalled w.thread s

vacated-Seated : (w : Waiter) → Seated w → Seated (vacated w)
vacated-Seated w s = (s.0, s.1, refl)

taken-Seated : (w : Waiter) → Seated w → Seated (taken w)
unfolding try_take
taken-Seated w s = ground arith

in_use-take : (w : Waiter) → (take w).in_use ≡ w.in_use
unfolding take
in_use-take w = ground arith

in_use-fail : (r : Result) (w : Waiter) → (fail r w).in_use ≡ w.in_use
unfolding fail
in_use-fail r w = ground arith

signal_first-AllSeated : (ws : List Waiter) → AllSeated ws → AllSeated (signal_first ws)
unfolding signal_first
signal_first-AllSeated [] a = tt
signal_first-AllSeated (w ∷ ws) a = elim (Bool-cases (waits w)) [
  | inl b ↦ rw b (subst (λ x. Seated (if x then signal w else w)) b (signal-Seated w a.0), a.1)
  | inr b ↦ rw b (a.0, signal_first-AllSeated ws a.1)
]

signal_all-AllSeated : (ws : List Waiter) → AllSeated ws → AllSeated (signal_all ws)
unfolding signal_all
signal_all-AllSeated [] a = tt
signal_all-AllSeated (w ∷ ws) a = (signal-Seated w a.0, signal_all-AllSeated ws a.1)

in_use_count-signal_first : (ws : List Waiter) → in_use_count (signal_first ws) ≡ in_use_count ws
unfolding in_use_count signal_first
in_use_count-signal_first [] = refl
in_use_count-signal_first (w ∷ ws) =
    let ih = in_use_count-signal_first ws in
    elim (Bool-cases (waits w)) [ inl b ↦ rw b refl | inr b ↦ rw (b, ih) refl ]

in_use_count-signal_all : (ws : List Waiter) → in_use_count (signal_all ws) ≡ in_use_count ws
unfolding in_use_count signal_all
in_use_count-signal_all [] = refl
in_use_count-signal_all (w ∷ ws) =
    let ih = in_use_count-signal_all ws in
    elim (Bool-cases (waits w)) [ inl b ↦ rw (b, ih) refl | inr b ↦ rw (b, ih) refl ]

claim-valid :
    (ws : List Waiter) {i : ℕ} {ws' : List Waiter}
    → AllSeated ws
    → claim ws ≡ some (i, ws')
    → AllSeated ws' × (in_use_count ws' ≡ in_use_count ws + 1)
unfolding claim in_use_count
claim-valid [] a e = none-ne e
claim-valid (w ∷ ws) {i} {ws'} a e =
    let Good : List Waiter → Type 0 =
      λ l. AllSeated l × (in_use_count l ≡ in_use_count (w ∷ ws) + 1) in
    elim (Bool-cases w.in_use) [
      | inr b ↦
          let p = ap (λ x. x.1) (some-eq (rw (b, claim) at e)) in
          let one_more : in_use_count (taken w ∷ ws) ≡ in_use_count (w ∷ ws) + 1 = ground arith in
          subst Good p ((taken-Seated w a.0, a.1), one_more)
      | inl b ↦ elim (Option-cases (claim ws)) [
        | inl q ↦ none-ne (rw (b, q, claim) at e)
        | inr ((j, l), q) ↦
            let p = ap (λ x. x.1) (some-eq (rw (b, q, claim) at e)) in
            let ih = claim-valid ws a.1 q in subst Good p ((a.0, ih.0), omega (arith, ih.1))
      ]
    ]

enter-IsValid : (cv : Condvar) → IsValid cv → IsValid (enter cv).1
unfolding enter
enter-IsValid cv v = elim (Option-cases (claim cv.waiters)) [
  | inl q ↦ rw (q, enter) v
  | inr ((i, ws), q) ↦
      let c = claim-valid cv.waiters v.seated q in
      rw (q, enter) (record { seated = c.0; counted = omega (arith, c.1, v.counted) })
]

has_left-in_use : (w : Waiter) → Seated w → has_left w.thread ≡ true → w.in_use ≡ true
has_left-in_use w s l = of_thread w.thread s.2 l
  where
    of_thread : (t : Thread) → Seat t w → has_left t ≡ true → w.in_use ≡ true
    of_thread outside s l = ground arith
    of_thread blocked s l = s.0
    of_thread woken s l = s.0
    of_thread (gave_up r) s l = s

-- The slot of a thread that leaves was in use.
vacated-count :
    (i : ℕ) (ws : List Waiter)
    → AllSeated ws
    → has_left (get_or ws i free_slot).thread ≡ true
    → in_use_count ws ≡ in_use_count (update vacated i ws) + 1
unfolding in_use_count update
vacated-count i [] a l = ground arith
vacated-count zero (w ∷ ws) a l = let u = has_left-in_use w a.0 l in ground arith
vacated-count (suc i) (w ∷ ws) a l = omega (arith, vacated-count i ws a.1 l)

leave-IsValid : (cv : Condvar) (i : ℕ) → IsValid cv → IsValid (leave cv i)
unfolding leave
leave-IsValid cv i v = elim (Bool-cases (has_left (get_or cv.waiters i free_slot).thread)) [
  | inr b ↦ rw b v
  | inl b ↦ rw b (record {
    seated = update-AllSeated vacated i cv.waiters vacated-Seated v.seated;
    counted = omega (arith, v.counted, vacated-count i cv.waiters v.seated b);
  })
]

notify-IsValid :
    (loop : List Waiter → List Waiter) (cv : Condvar)
    → ((ws : List Waiter) → AllSeated ws → AllSeated (loop ws))
    → ((ws : List Waiter) → in_use_count (loop ws) ≡ in_use_count ws)
    → IsValid cv
    → IsValid (notify loop cv)
notify-IsValid loop cv keeps same v = elim (Bool-cases (cv.n_waiters == 0)) [
  | inl b ↦ rw b v
  | inr b ↦
      rw b
        (record { seated = keeps cv.waiters v.seated; counted = v.counted ∙ sym (same cv.waiters) })
]

pub step-IsValid_cv : (cv : Condvar) (a : Action) → IsValid cv → IsValid (step cv a)
unfolding step
step-IsValid_cv cv enters v = enter-IsValid cv v
step-IsValid_cv cv (takes i) v = record {
  seated = update-AllSeated take i cv.waiters take-Seated v.seated;
  counted = v.counted ∙ sym (update-in_use_count take i cv.waiters in_use-take);
}
step-IsValid_cv cv (fails i r) v = record {
  seated = update-AllSeated (fail r) i cv.waiters (fail-Seated r) v.seated;
  counted = v.counted ∙ sym (update-in_use_count (fail r) i cv.waiters (in_use-fail r));
}
step-IsValid_cv cv (leaves i) v = leave-IsValid cv i v
step-IsValid_cv cv notifies_one v =
    notify-IsValid signal_first cv signal_first-AllSeated in_use_count-signal_first v
step-IsValid_cv cv notifies_all v =
    notify-IsValid signal_all cv signal_all-AllSeated in_use_count-signal_all v

run-IsValid_cv : (cv : Condvar) (xs : List Action) → IsValid cv → IsValid (run cv xs)
unfolding run
run-IsValid_cv cv [] v = v
run-IsValid_cv cv (x ∷ xs) v = run-IsValid_cv (step cv x) xs (step-IsValid_cv cv x v)

free_slot-Seated : Seated free_slot
free_slot-Seated = (refl, omega arith, refl)

-- However threads wait, wake, give up, leave and notify at a condition variable as it was created: the
-- number of waiters is that of the slots in use; every slot's semaphore has at most one token; a thread
-- that is blocked has a token exactly if it was signalled since it took its slot, and one that woke was
-- signalled since then.
pub slots_consistent : (xs : List Action) → IsValid (run fresh xs)
unfolding in_use_count
slots_consistent xs =
    let f = free_slot-Seated in
    run-IsValid_cv fresh xs
      (record { seated = (f, (f, (f, (f, (f, (f, (f, (f, tt)))))))); counted = refl })
