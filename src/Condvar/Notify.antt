-- ===== src/Condvar/Notify.antt =====
-- Whom osal_condvar_notify_one and osal_condvar_notify_all of src/common/emulated_condvar.inl wake.
use micr_osal.Common.{
  ℕ, suc, ◌+◌, ◌≤◌, ◌≡◌, refl, ◌⊎◌, inl, inr, List, [], ◌∷◌, true, false, ◌&&◌, ◌==◌, if◌then◌else◌,
  get_or, arith, Bool-cases, ==→eq,
}
use micr_osal.Error.{Result}
use micr_osal.Semaphore.{give}
use micr_osal.Condvar.{
  Thread, outside, blocked, woken, gave_up, Waiter, Condvar, free_slot, fresh, is_blocked, waits,
  signal, signal_first, signal_all, notify,
}
use micr_osal.Condvar.Seats.{
  Action, run, Seat, Seated, AllSeated, in_use_count, IsValid, slots_consistent,
}

-- How many threads are blocked on a semaphore that has no token.
unfoldable pub asleep : List Waiter → ℕ
asleep [] = 0
asleep (w ∷ ws) = (if is_blocked w.thread && w.sem.count == 0 then 1 else 0) + asleep ws

-- A thread whose take has failed is still in its slot, and has not been signalled.
abbrev pub LateWaiter : List Waiter → Type 0
LateWaiter ws =
    (i : ℕ) × (r : Result) × ((get_or ws i free_slot).thread ≡ gave_up r)
    × ((get_or ws i free_slot).signalled ≡ false)

-- One thread fewer is asleep; or none was; or the signal went to a thread that had given up.
abbrev pub OneWoken : List Waiter → List Waiter → Type 0
OneWoken ws ws' =
    (asleep ws' + 1 ≡ asleep ws)
    ⊎ ((asleep ws ≡ 0) × (asleep ws' ≡ 0))
    ⊎ ((asleep ws' ≡ asleep ws) × LateWaiter ws)

-- A slot whose thread a notification may tell: it is blocked, or has given up.
told :
    (w : Waiter)
    → Seated w
    → waits w ≡ true
    → ((w.thread ≡ blocked) × (w.sem.count ≡ 0) × ((signal w).sem.count ≡ 1))
      ⊎ ((r : Result) × (w.thread ≡ gave_up r) × (w.signalled ≡ false))
unfolding give
told w s e = of_thread w.thread refl s.2
  where
    of_thread :
        (t : Thread)
        → w.thread ≡ t
        → Seat t w
        → ((w.thread ≡ blocked) × (w.sem.count ≡ 0) × ((signal w).sem.count ≡ 1))
          ⊎ ((r : Result) × (w.thread ≡ gave_up r) × (w.signalled ≡ false))
    of_thread outside p a = ground arith
    of_thread blocked p a = inl (p, ground arith, ground (arith, s.0))
    of_thread woken p a = ground arith
    of_thread (gave_up r) p a = inr (r, p, ground arith)

-- A slot that a notification passes over has no thread asleep.
untold : (w : Waiter) → Seated w → waits w ≡ false → is_blocked w.thread && w.sem.count == 0 ≡ false
untold w s e = of_thread w.thread refl s.2
  where
    of_thread :
        (t : Thread) → w.thread ≡ t → Seat t w → is_blocked w.thread && w.sem.count == 0 ≡ false
    of_thread outside p a = rw p refl
    of_thread blocked p a = rw p (ground (arith, a.0))
    of_thread woken p a = rw p refl
    of_thread (gave_up r) p a = rw p refl

signal_first-OneWoken : (ws : List Waiter) → AllSeated ws → OneWoken ws (signal_first ws)
unfolding asleep signal_first
signal_first-OneWoken [] a = inr (inl (refl, refl))
signal_first-OneWoken (w ∷ ws) a = elim (Bool-cases (waits w)) [
  | inl b ↦ elim (told w a.0 b) [
    | inl (p, q, g) ↦ rw (b, p, g, q) (inl (omega arith))
    | inr (r, p, q) ↦ rw (b, p, q) (inr (inr (omega arith, (0, r, refl, refl))))
  ]
  | inr b ↦
      let n = untold w a.0 b in
      elim (signal_first-OneWoken ws a.1) [
        | inl e ↦ rw (b, n) (inl (omega arith))
        | inr (inl (e, f)) ↦ rw (b, n) (inr (inl (omega arith, omega arith)))
        | inr (inr (e, (i, r, p, q))) ↦ rw (b, n) (inr (inr (omega arith, (suc i, r, p, q))))
      ]
]

signal-told :
    (w : Waiter)
    → Seated w
    → waits w ≡ true
    → is_blocked w.thread && (signal w).sem.count == 0 ≡ false
signal-told w s e = elim (told w s e) [ inl (p, q, g) ↦ rw (p, g) refl | inr (r, p, q) ↦ rw p refl ]

asleep-signal_all : (ws : List Waiter) → AllSeated ws → asleep (signal_all ws) ≡ 0
unfolding asleep signal_all
asleep-signal_all [] a = refl
asleep-signal_all (w ∷ ws) a =
    let ih = asleep-signal_all ws a.1 in
    elim (Bool-cases (waits w)) [
      | inl b ↦ rw b (rw (signal-told w a.0 b) (omega arith))
      | inr b ↦ rw b (rw (untold w a.0 b) (omega arith))
    ]

asleep-le : (ws : List Waiter) → AllSeated ws → asleep ws ≤ in_use_count ws
unfolding asleep in_use_count
asleep-le [] a = omega arith
asleep-le (w ∷ ws) a =
    let ih = asleep-le ws a.1 in
    elim (Bool-cases w.in_use) [
      | inl u ↦ ground arith
      | inr u ↦ let n = untold w a.0 (rw u refl) in rw (n, u) (omega arith)
    ]

-- What a notification does to the sleepers, through its test of the number of waiters.
notified :
    (cv : Condvar)
    → IsValid cv
    → OneWoken cv.waiters (notify signal_first cv).waiters
      × (asleep (notify signal_all cv).waiters ≡ 0)
notified cv v = elim (Bool-cases (cv.n_waiters == 0)) [
  | inl b ↦
      let none_in = ==→eq cv.n_waiters 0 b in
      let none_asleep : asleep cv.waiters ≡ 0 =
        omega (arith, v.counted, asleep-le cv.waiters v.seated) in
      rw b (inr (inl (none_asleep, none_asleep)), none_asleep)
  | inr b ↦ rw b (signal_first-OneWoken cv.waiters v.seated, asleep-signal_all cv.waiters v.seated)
]

-- However threads have used a condition variable since its creation: notify_all leaves no thread
-- blocked on a semaphore without a token; notify_one leaves one fewer, or there was none, or its signal
-- went to a thread that had already given up and not left its slot, and as many stay so as before.
pub notifications_wake :
    (xs : List Action)
    → let cv = run fresh xs in
      OneWoken cv.waiters (notify signal_first cv).waiters
      × (asleep (notify signal_all cv).waiters ≡ 0)
notifications_wake xs = notified (run fresh xs) (slots_consistent xs)
