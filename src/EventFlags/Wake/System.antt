-- ===== src/EventFlags/Wake/System.antt =====
-- The steps of threads at event flags. A thread that has the guard goes on by one access at a time of what
-- an interrupt may touch; the stores into a slot before it is marked active are one step, as an interrupt
-- reads none of them, and so is the loop of a wake over the slots, and an interrupt's call.
use micr_osal.Common.{
  ℕ, ◌+◌, ◌-◌, List, [], ◌∷◌, Option, none, some, Bool, true, false, if◌then◌else◌, get_or,
}
use micr_osal.EventFlags.{
  Bits, Thread, arriving, looking, blocked, awake, Waiter, EventFlags, free_slot, matches, bit_or,
  wake_matching, set_bits, clear_bits, claim, marked_active, enrolled, update, unpended, given_back,
  asleep_in, departing, on_exit, reopened, taken,
}

-- Where the thread is that has the guard; `wakes_for` is in osal_event_flags_set after its store, the
-- others are in emu_ef_wait: about to claim a slot; in slot `i` about to mark it active, to count it, to
-- look at the flags, to reset wake_pending; with a match about to change the flags; about to reset
-- wake_pending for good, and to give the slot back.
pub data Holder : Type 0 where
  nobody : Holder
  wakes_for : Bits → Holder
  enters : Bits → Bool → Bool → Holder
  marks counts second_look reopens : ℕ → Bool → Holder
  exits : Option ℕ → Bits → Bool → Holder
  unpends gives_back : ℕ → Holder

pub record System : Type 0 where
  pub flags : EventFlags
  pub holder : Holder

-- An interrupt sets flags; a thread that gets the guard sets or clears some, begins a wait, looks at the
-- flags after its take, or leaves when its timeout has passed; the thread that has the guard goes on; and
-- the take of a blocked thread ends, with the token or without.
pub data Action : Type 0 where
  interrupts sets clears : Bits → Action
  begins : Bits → Bool → Bool → Action
  looks : ℕ → Bool → Action
  expires wakes : ℕ → Action
  goes_on : Action

abbrev pub is_arriving : Thread → Bool
is_arriving arriving = true
is_arriving _ = false

abbrev pub is_looking : Thread → Bool
is_looking looking = true
is_looking _ = false

abbrev pub is_awake : Thread → Bool
is_awake awake = true
is_awake _ = false

abbrev pub is_blocked : Thread → Bool
is_blocked blocked = true
is_blocked _ = false

abbrev pub slot : EventFlags → ℕ → Waiter
slot ef i = get_or ef.waiters i free_slot

abbrev pub change : (Waiter → Waiter) → ℕ → EventFlags → EventFlags
change f i ef = record ef { waiters = update f i ef.waiters }

-- The first look of a wait.
unfoldable pub begin_wait : EventFlags → Bits → Bool → Bool → Holder
begin_wait ef wait_bits wait_all clear_on_exit =
    if matches ef.bits wait_bits wait_all
    then exits none wait_bits clear_on_exit
    else enters wait_bits wait_all clear_on_exit

-- The look after the take in slot `i`.
unfoldable pub look : EventFlags → ℕ → Bool → System
look ef i clear_on_exit =
    let w = slot ef i in
    if is_awake w.thread
    then record {
      flags = ef;
      holder =
          if matches ef.bits w.wait_bits w.wait_all
          then exits (some i) w.wait_bits clear_on_exit
          else reopens i clear_on_exit;
    }
    else record { flags = ef; holder = nobody }

-- The look before it sleeps, after its registration or after wake_pending was reset.
unfoldable pub look_again : EventFlags → ℕ → Bool → System
look_again ef i clear_on_exit =
    let w = slot ef i in
    if is_looking w.thread
    then (if matches ef.bits w.wait_bits w.wait_all
        then record {
          flags = change departing i ef;
          holder = exits (some i) w.wait_bits clear_on_exit;
        }
        else record { flags = change asleep_in i ef; holder = nobody })
    else record { flags = ef; holder = nobody }

unfoldable pub expire : EventFlags → ℕ → System
expire ef i =
    if is_blocked (slot ef i).thread
    then record { flags = change departing i ef; holder = unpends i }
    else record { flags = ef; holder = nobody }

-- A slot changed by `f` when its thread is where `at` says, and what its thread does next.
abbrev pub change_at : (Thread → Bool) → (Waiter → Waiter) → EventFlags → ℕ → Holder → System
change_at at f ef i next =
    if at (slot ef i).thread
    then record { flags = change f i ef; holder = next }
    else record { flags = ef; holder = nobody }

unfoldable pub claim_slot : EventFlags → Bits → Bool → Bool → System
claim_slot ef wait_bits wait_all clear_on_exit = elim (claim wait_bits wait_all ef.waiters) [
  | none ↦ record { flags = ef; holder = nobody }
  | some (i, ws) ↦ record { flags = record ef { waiters = ws }; holder = marks i clear_on_exit }
]

unfoldable pub count_slot : EventFlags → ℕ → Bool → System
count_slot ef i clear_on_exit =
    if is_arriving (slot ef i).thread
    then record {
      flags = record (change enrolled i ef) { waiter_count = ef.waiter_count + 1 };
      holder = second_look i clear_on_exit;
    }
    else record { flags = ef; holder = nobody }

unfoldable pub hand_back : EventFlags → ℕ → System
hand_back ef i =
    if is_awake (slot ef i).thread
    then record {
      flags = record (change given_back i ef) { waiter_count = ef.waiter_count - 1 };
      holder = nobody;
    }
    else record { flags = ef; holder = nobody }

abbrev pub after_exit : Option ℕ → Holder
after_exit none = nobody
after_exit (some i) = unpends i

-- The next access of the thread that has the guard.
unfoldable pub holder_step : Holder → EventFlags → System
holder_step nobody ef = record { flags = ef; holder = nobody }
holder_step (wakes_for bits) ef = record { flags = wake_matching ef bits; holder = nobody }
holder_step (enters wait_bits wait_all clear) ef = claim_slot ef wait_bits wait_all clear
holder_step (marks i clear) ef = change_at is_arriving marked_active ef i (counts i clear)
holder_step (counts i clear) ef = count_slot ef i clear
holder_step (second_look i clear) ef = look_again ef i clear
holder_step (reopens i clear) ef = change_at is_awake reopened ef i (second_look i clear)
holder_step (exits own wait_bits clear) ef = record {
  flags = on_exit clear wait_bits ef;
  holder = after_exit own;
}
holder_step (unpends i) ef = change_at is_awake unpended ef i (gives_back i)
holder_step (gives_back i) ef = hand_back ef i

-- What a thread does that gets the guard.
unfoldable pub begin_set : EventFlags → Bits → System
begin_set ef bits =
    let updated_bits = bit_or ef.bits bits in
    record { flags = record ef { bits = updated_bits }; holder = wakes_for updated_bits }

unfoldable pub locked : EventFlags → Action → System
locked ef (sets bits) = begin_set ef bits
locked ef (clears bits) = record { flags = clear_bits ef bits; holder = nobody }
locked ef (begins wait_bits wait_all clear) = record {
  flags = ef;
  holder = begin_wait ef wait_bits wait_all clear;
}
locked ef (looks i clear) = look ef i clear
locked ef (expires i) = expire ef i
locked ef _ = record { flags = ef; holder = nobody }

abbrev pub when_free : Holder → System → System → System
when_free nobody s t = s
when_free _ s t = t

unfoldable pub taken_at : EventFlags → ℕ → EventFlags
taken_at ef i = if is_blocked (slot ef i).thread then change taken i ef else ef

unfoldable pub step : System → Action → System
step s (interrupts bits) = record s { flags = set_bits s.flags bits }
step s (wakes i) = record s { flags = taken_at s.flags i }
step s goes_on = holder_step s.holder s.flags
step s a = when_free s.holder (locked s.flags a) s

unfoldable pub run : System → List Action → System
run s [] = s
run s (a ∷ rest) = run (step s a) rest
