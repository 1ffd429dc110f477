-- ===== src/Condvar.antt =====
-- src/common/emulated_condvar.inl: waiter slots, each with a semaphore of one token. What a call does
-- under the guard is one step.
pub mod Seats
pub mod Notify
pub mod Pool
mod Tests
use micr_osal.Common.{
  ℕ, zero, suc, ◌+◌, ◌-◌, List, [], ◌∷◌, Option, none, some, Bool, true, false, not, ◌&&◌, ltb,
  ◌==◌, if◌then◌else◌, get_or, replicate, length,
}
use micr_osal.Error.{Result, ok, out_of_resources, not_initialized}
use micr_osal.Semaphore.{Semaphore, new_semaphore, give, try_take}

-- Where the thread that has a slot is in osal_condvar_wait: it has none, it is blocked on the slot's
-- semaphore, the take succeeded, or the take failed; in the last two it has not given the slot back.
pub data Thread : Type 0 where
  outside blocked woken : Thread
  gave_up : Result → Thread

-- emulated_condvar_waiter, and the thread that has the slot
pub record Waiter : Type 0 where
  pub sem : Semaphore
  pub in_use : Bool
  pub signalled : Bool
  pub thread : Thread

-- emulated_condvar_obj
pub record Condvar : Type 0 where
  pub waiters : List Waiter
  pub n_waiters : ℕ

-- OSAL_CONDVAR_MAX_WAITERS
abbrev pub max_waiters : ℕ
max_waiters = 8

abbrev pub free_slot : Waiter
free_slot = record { sem = new_semaphore 0 1; in_use = false; signalled = false; thread = outside }

-- What osal_condvar_create stores.
abbrev pub fresh : Condvar
fresh = record { waiters = replicate max_waiters free_slot; n_waiters = 0 }

-- A slot that a waiting thread has just taken.
abbrev pub taken : Waiter → Waiter
taken w = record { sem = (try_take w.sem).1; in_use = true; signalled = false; thread = blocked }

-- The first free slot, and the slots after it is taken.
unfoldable pub claim : List Waiter → Option (ℕ × List Waiter)
claim [] = none
claim (w ∷ ws) =
    let rest = claim ws in
    if w.in_use
    then (elim rest [ none ↦ none | some (i, ws') ↦ some (i + 1, w ∷ ws') ])
    else some (0, taken w ∷ ws)

-- The first part of osal_condvar_wait: the slot that it has got.
unfoldable pub enter : Condvar → Option ℕ × Condvar
enter cv = elim (claim cv.waiters) [
  | none ↦ (none, cv)
  | some (i, ws) ↦ (some i, record { waiters = ws; n_waiters = cv.n_waiters + 1 })
]

-- Slot `i` changed by `f`.
unfoldable pub update : (Waiter → Waiter) → ℕ → List Waiter → List Waiter
update f i [] = []
update f zero (w ∷ ws) = f w ∷ ws
update f (suc i) (w ∷ ws) = w ∷ update f i ws

abbrev pub is_blocked : Thread → Bool
is_blocked outside = false
is_blocked blocked = true
is_blocked woken = false
is_blocked (gave_up r) = false

abbrev pub has_left : Thread → Bool
has_left outside = false
has_left blocked = false
has_left woken = true
has_left (gave_up r) = true

-- The take of the slot's semaphore, when it has a token and when it fails.
unfoldable pub take : Waiter → Waiter
take w =
    if is_blocked w.thread && ltb 0 w.sem.count
    then record w { sem = (try_take w.sem).1; thread = woken }
    else w

unfoldable pub fail : Result → Waiter → Waiter
fail r w = if is_blocked w.thread then record w { thread = gave_up r } else w

-- The last part of osal_condvar_wait.
abbrev pub vacated : Waiter → Waiter
vacated w = record w { in_use = false; thread = outside }

unfoldable pub leave : Condvar → ℕ → Condvar
leave cv i =
    if has_left (get_or cv.waiters i free_slot).thread
    then record { waiters = update vacated i cv.waiters; n_waiters = cv.n_waiters - 1 }
    else cv

-- osal_condvar_wait as one call: `others` is what the other threads do while it is blocked, and `answer`
-- what the take of the semaphore returns.
unfoldable pub wait :
    Option Condvar → Bool → (ℕ → Condvar → Condvar) → Result → Result × Option Condvar
wait none mutex others answer = (not_initialized, none)
wait (some cv) false others answer = (not_initialized, some cv)
wait (some cv) true others answer =
    let (slot, cv') = enter cv in
    elim slot [
      | none ↦ (out_of_resources, some cv')
      | some i ↦
          let seen = others i cv' in
          let back = record seen {
            waiters = update vacated i seen.waiters;
            n_waiters = seen.n_waiters - 1;
          } in
          (answer, some back)
    ]

-- A waiter that is told.
abbrev pub waits : Waiter → Bool
waits w = w.in_use && not w.signalled

abbrev pub signal : Waiter → Waiter
signal w = record w { signalled = true; sem = (give w.sem).1 }

-- The loops of osal_condvar_notify_one and osal_condvar_notify_all.
unfoldable pub signal_first : List Waiter → List Waiter
signal_first [] = []
signal_first (w ∷ ws) = let rest = signal_first ws in if waits w then signal w ∷ ws else w ∷ rest

unfoldable pub signal_all : List Waiter → List Waiter
signal_all [] = []
signal_all (w ∷ ws) = (if waits w then signal w else w) ∷ signal_all ws

abbrev pub notify : (List Waiter → List Waiter) → Condvar → Condvar
notify loop cv = if cv.n_waiters == 0 then cv else record cv { waiters = loop cv.waiters }

-- osal_condvar_notify_one
unfoldable pub notify_one : Option Condvar → Result × Option Condvar
notify_one none = (not_initialized, none)
notify_one (some cv) = (ok, some (notify signal_first cv))

-- osal_condvar_notify_all
unfoldable pub notify_all : Option Condvar → Result × Option Condvar
notify_all none = (not_initialized, none)
notify_all (some cv) = (ok, some (notify signal_all cv))
