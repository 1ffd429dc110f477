-- ===== src/EventFlags.antt =====
-- src/common/emulated_event_flags.inl: a word of flag bits and waiter slots, each with a semaphore of
-- one token. What a call does under the guard is one step, and so is an interrupt's set.
pub mod Bits
pub mod Wake
pub mod Wait
pub mod Pool
mod Tests
use micr_osal.Common.{
  ℕ, zero, suc, ◌+◌, ◌-◌, List, [], ◌∷◌, Option, none, some, Bool, true, false, not, ◌&&◌, ◌||◌,
  ltb, ◌==◌, if◌then◌else◌, get_or, replicate,
}
use micr_osal.Error.{
  Result, ok, timeout, would_block, out_of_resources, not_initialized, not_supported,
}
use micr_osal.Semaphore.{Semaphore, new_semaphore, give, try_take, after_take}
use micr_osal.Tick.{no_wait, expired}

-- event_bits_t: its bits, the lowest first; those behind the end are clear.
abbrev pub Bits : Type 0
Bits = List Bool

-- bits & mask
unfoldable pub bit_and : Bits → Bits → Bits
bit_and (x ∷ xs) (y ∷ ys) = (x && y) ∷ bit_and xs ys
bit_and [] ys = []
bit_and (x ∷ xs) [] = []

-- bits | mask
unfoldable pub bit_or : Bits → Bits → Bits
bit_or (x ∷ xs) (y ∷ ys) = (x || y) ∷ bit_or xs ys
bit_or [] ys = ys
bit_or (x ∷ xs) [] = x ∷ xs

-- bits & ~mask
unfoldable pub bit_clear : Bits → Bits → Bits
bit_clear (x ∷ xs) (y ∷ ys) = (x && not y) ∷ bit_clear xs ys
bit_clear [] ys = []
bit_clear (x ∷ xs) [] = x ∷ xs

-- bits != 0
unfoldable pub any_bit : Bits → Bool
any_bit [] = false
any_bit (x ∷ xs) = x || any_bit xs

-- bits == mask
abbrev pub same_bit : Bool → Bool → Bool
same_bit true y = y
same_bit false y = not y

unfoldable pub same_bits : Bits → Bits → Bool
same_bits [] [] = true
same_bits [] (y ∷ ys) = not y && same_bits [] ys
same_bits (x ∷ xs) [] = not x && same_bits xs []
same_bits (x ∷ xs) (y ∷ ys) = same_bit x y && same_bits xs ys

-- emu_ef_waiter_matches, and `matched` in emu_ef_wait
unfoldable pub matches : Bits → Bits → Bool → Bool
matches bits wait_bits wait_all =
    let relevant = bit_and bits wait_bits in
    if wait_all then same_bits relevant wait_bits else any_bit relevant

-- Where the thread that has a slot is in emu_ef_wait: it has none; it registers; it is about to look at
-- the flags, or again, before it sleeps; it is blocked on the slot's semaphore; or it has been, and will
-- look at the flags or leave.
pub data Thread : Type 0 where
  outside arriving looking blocked awake : Thread

-- emu_ef_waiter, with its bit of active_waiter_words and the thread that has the slot
pub record Waiter : Type 0 where
  pub sem : Semaphore
  pub active : Bool
  pub in_use : Bool
  pub wake_pending : Bool
  pub wait_bits : Bits
  pub wait_all : Bool
  pub thread : Thread

-- emu_ef_obj
pub record EventFlags : Type 0 where
  pub waiters : List Waiter
  pub bits : Bits
  pub waiter_count : ℕ

-- OSAL_EVENT_FLAGS_MAX_WAITERS
abbrev pub max_waiters : ℕ
max_waiters = 8

abbrev pub free_slot : Waiter
free_slot = record {
  sem = new_semaphore 0 1;
  active = false;
  in_use = false;
  wake_pending = false;
  wait_bits = [];
  wait_all = false;
  thread = outside;
}

-- What osal_event_flags_create stores.
abbrev pub fresh : EventFlags
fresh = record { waiters = replicate max_waiters free_slot; bits = []; waiter_count = 0 }

-- Whom emu_ef_wake_matching_common gives a token.
abbrev pub to_wake : Bits → Waiter → Bool
to_wake bits w = w.active && w.in_use && matches bits w.wait_bits w.wait_all && not w.wake_pending

abbrev pub token_given : Waiter → Waiter
token_given w = record w { wake_pending = true; sem = (give w.sem).1 }

-- emu_ef_wake_matching_common, through the bits of the active slots from the lowest
unfoldable pub wake_common : Bits → List Waiter → List Waiter
wake_common bits [] = []
wake_common bits (w ∷ ws) = (if to_wake bits w then token_given w else w) ∷ wake_common bits ws

-- emu_ef_wake_matching
unfoldable pub wake_matching : EventFlags → Bits → EventFlags
wake_matching ef bits =
    if ef.waiter_count == 0 then ef else record ef { waiters = wake_common bits ef.waiters }

-- What osal_event_flags_set and osal_event_flags_clear do under the guard, and osal_event_flags_set_isr
-- without it.
unfoldable pub set_bits : EventFlags → Bits → EventFlags
set_bits ef bits =
    let updated_bits = bit_or ef.bits bits in
    wake_matching (record ef { bits = updated_bits }) updated_bits

unfoldable pub clear_bits : EventFlags → Bits → EventFlags
clear_bits ef bits = record ef { bits = bit_clear ef.bits bits }

-- osal_event_flags_set, osal_event_flags_clear and osal_event_flags_get
unfoldable pub set_flags : Option EventFlags → Bits → Result × Option EventFlags
set_flags none bits = (not_initialized, none)
set_flags (some ef) bits = (ok, some (set_bits ef bits))

unfoldable pub clear_flags : Option EventFlags → Bits → Result × Option EventFlags
clear_flags none bits = (not_initialized, none)
clear_flags (some ef) bits = (ok, some (clear_bits ef bits))

unfoldable pub get_flags : Option EventFlags → Bits
get_flags none = []
get_flags (some ef) = ef.bits

-- osal_event_flags_set_isr, on a backend that has interrupt-safe event flags or not
unfoldable pub set_isr : Bool → Option EventFlags → Bits → Result × Option EventFlags
set_isr capable none bits = (not_initialized, none)
set_isr false (some ef) bits = (not_supported, some ef)
set_isr true (some ef) bits = (ok, some (set_bits ef bits))

-- A slot that a thread has claimed, before it is marked active.
abbrev pub registered : Bits → Bool → Waiter → Waiter
registered wait_bits wait_all w = record {
  sem = (try_take w.sem).1;
  active = false;
  in_use = true;
  wake_pending = false;
  wait_bits = wait_bits;
  wait_all = wait_all;
  thread = arriving;
}

-- emu_ef_claim_waiter_slot, and the stores into the slot
unfoldable pub claim : Bits → Bool → List Waiter → Option (ℕ × List Waiter)
claim wait_bits wait_all [] = none
claim wait_bits wait_all (w ∷ ws) =
    let rest = claim wait_bits wait_all ws in
    if w.active
    then (elim rest [ none ↦ none | some (i, ws') ↦ some (i + 1, w ∷ ws') ])
    else some (0, registered wait_bits wait_all w ∷ ws)

-- The slot's bit is set; and it counts as a waiter.
abbrev pub marked_active : Waiter → Waiter
marked_active w = record w { active = true }

abbrev pub enrolled : Waiter → Waiter
enrolled w = record w { active = true; thread = looking }

-- Slot `i` changed by `f`.
unfoldable pub update : (Waiter → Waiter) → ℕ → List Waiter → List Waiter
update f i [] = []
update f zero (w ∷ ws) = f w ∷ ws
update f (suc i) (w ∷ ws) = w ∷ update f i ws

-- release_waiter: its first store, the others, and all of them
abbrev pub unpended : Waiter → Waiter
unpended w = record w { wake_pending = false }

abbrev pub given_back : Waiter → Waiter
given_back w = record w { in_use = false; active = false; thread = outside }

abbrev pub vacated : Waiter → Waiter
vacated w = given_back (unpended w)

unfoldable pub release_waiter : EventFlags → ℕ → EventFlags
release_waiter ef i = record ef {
  waiters = update vacated i ef.waiters;
  waiter_count = ef.waiter_count - 1;
}

-- A thread that found no match sleeps.
abbrev pub asleep_in : Waiter → Waiter
asleep_in w = record w { thread = blocked }

-- A thread that leaves its wait, with a match or after its timeout.
abbrev pub departing : Waiter → Waiter
departing w = record w { thread = awake }

-- What a wait that is matched does to the bits.
abbrev pub on_exit : Bool → Bits → EventFlags → EventFlags
on_exit clear_on_exit wait_bits ef = if clear_on_exit then clear_bits ef wait_bits else ef

-- The slot's `wake_pending` is reset before its thread sleeps again.
abbrev pub reopened : Waiter → Waiter
reopened w = record w { wake_pending = false; thread = looking }

-- The take of the slot's semaphore has ended, with its token if there was one.
abbrev pub taken : Waiter → Waiter
taken w = record w { sem = after_take w.sem; thread = awake }
