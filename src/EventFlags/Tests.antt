-- ===== src/EventFlags/Tests.antt =====
-- Event flags in use, and the theorems at concrete inputs.
use micr_osal.Common.{◌≡◌, refl, List, [], ◌∷◌, some, true, false, replicate}
use micr_osal.Error.{ok}
use micr_osal.Semaphore.{give, try_take}
use micr_osal.EventFlags.{
  Bits, EventFlags, fresh, free_slot, matches, bit_and, bit_or, bit_clear, any_bit, same_bits,
  wake_common, wake_matching, set_bits, clear_bits, claim, update, release_waiter, blocked, outside,
}
use micr_osal.EventFlags.Wake.System.{
  Action, interrupts, sets, begins, goes_on, begin_wait, look, look_again, claim_slot, count_slot,
  hand_back, holder_step, begin_set, locked, taken_at, step, run,
}
use micr_osal.EventFlags.Wake.Steps.{after, is_waking, slot_after, no_lost_event}
use micr_osal.EventFlags.Wait.{Round, Ended, wait_loop, wait_flags, wait_exact, Answer}

-- Flags 1 and 3, flag 1, and flag 3.
abbrev both : Bits
both = true ∷ false ∷ true ∷ []

abbrev first : Bits
first = true ∷ []

abbrev third : Bits
third = false ∷ false ∷ true ∷ []

-- A thread registers for both flags, and another for any of them, with an interrupt that sets the first
-- flag before its second look; it finds it and leaves. A thread sets the third
-- flag.
abbrev script : List Action
script =
    begins both true false
    ∷ goes_on
    ∷ goes_on
    ∷ goes_on
    ∷ goes_on
    ∷ begins both false false
    ∷ goes_on
    ∷ goes_on
    ∷ goes_on
    ∷ interrupts first
    ∷ goes_on
    ∷ goes_on
    ∷ goes_on
    ∷ goes_on
    ∷ sets third
    ∷ goes_on
    ∷ []

script-holder : is_waking (after script).holder ≡ false
unfolding run step locked holder_step begin_wait claim_slot count_slot look look_again hand_back
    begin_set taken_at claim matches bit_and bit_or any_bit same_bits set_bits wake_matching
    wake_common update try_take give
script-holder = refl

script-thread : ((slot_after script 0).thread ≡ blocked) × ((slot_after script 1).thread ≡ outside)
unfolding run step locked holder_step begin_wait claim_slot count_slot look look_again hand_back
    begin_set taken_at claim matches bit_and bit_or any_bit same_bits set_bits wake_matching
    wake_common update try_take give
script-thread = (refl, refl)

script-matches :
    matches (after script).flags.bits (slot_after script 0).wait_bits (slot_after script 0).wait_all
    ≡ true
unfolding run step locked holder_step begin_wait claim_slot count_slot look look_again hand_back
    begin_set taken_at claim matches bit_and bit_or any_bit same_bits set_bits wake_matching
    wake_common update try_take give
script-matches = refl

no_lost_event_example : (slot_after script 0).sem.count ≡ 1
no_lost_event_example = no_lost_event script 0 script-holder (script-thread.0) script-matches

-- The first round brings the wrong flag, the second the right one.
abbrev rounds : List Round
rounds =
    record { now = 101; others = λ ef. set_bits ef third; interrupts = λ ef. ef }
    ∷ record { now = 103; others = λ ef. ef; interrupts = λ ef. set_bits ef first }
    ∷ []

-- The slot keeps what the thread waited for, and a token that came after its last take.
abbrev cleared : EventFlags
cleared = record fresh {
  waiters =
      record free_slot {
        sem = record { count = 1; max_count = 1 };
        wait_bits = both;
        wait_all = true;
      }
      ∷ replicate 7 free_slot;
  bits = false ∷ false ∷ false ∷ [];
}

wait_flags-rounds :
    wait_flags both true true (λ ef. ef) 5 100 (λ ef. ef) fresh rounds
    ≡ some (ok, some both, cleared)
unfolding wait_flags wait_loop claim matches bit_and bit_or bit_clear any_bit same_bits set_bits
    clear_bits wake_matching wake_common update release_waiter try_take give
wait_flags-rounds = refl

abbrev answer : Answer
answer = (ok, some both, cleared)

wait_exact_example : Ended both true true (λ ef. ef) 5 100 (λ ef. ef) fresh rounds answer
wait_exact_example =
    wait_exact both true true (λ ef. ef) 5 100 (λ ef. ef) fresh rounds answer wait_flags-rounds
