-- ===== src/EventFlags/Wake/Sound.antt =====
-- What holds of event flags whose guard a thread may have, and what keeps it.
use micr_osal.Common.{
  ℕ, zero, suc, ◌+◌, ◌≡◌, ◌≢◌, refl, sym, ◌∙◌, inl, inr, List, [], ◌∷◌, Option, none, some, Bool,
  true, false, ◌==◌, if◌then◌else◌, get_or, arith, Bool-cases, ==→eq,
}
use micr_osal.EventFlags.{
  Bits, Thread, outside, Waiter, EventFlags, free_slot, bit_or, wake_matching, set_bits, clear_bits,
  on_exit,
}
use micr_osal.EventFlags.Wake.Slots.{
  Seated, AllSeated, inside, inside_count, AllSeated-clear, AllSeated-announce, AllSeated-idle,
  wake_common-AllSeated, wake_common-late, inside_count-wake_common, update-AllSeated,
  inside_count-update,
}
use micr_osal.EventFlags.Wake.System.{Holder, nobody, wakes_for, System, slot, change, begin_set}

-- The flags that the thread with the guard has set and has not yet woken waiters for.
abbrev pub late : Holder → Option Bits
late (wakes_for bits) = some bits
late _ = none

pub record Sound (ef : EventFlags) (h : Option Bits) : Type 0 where
  pub seated : AllSeated ef.bits h ef.waiters
  pub counted : ef.waiter_count ≡ inside_count ef.waiters

abbrev pub SoundIn : System → Type 0
SoundIn s = Sound s.flags (late s.holder)

pub lookup :
    (bits : Bits) (h : Option Bits) (i : ℕ) (ws : List Waiter)
    → AllSeated bits h ws
    → Seated bits h (get_or ws i free_slot)
lookup bits h i [] a = (refl, omega arith, (refl, refl))
lookup bits h zero (w ∷ ws) a = a.0
lookup bits h (suc i) (w ∷ ws) a = lookup bits h i ws a.1

-- A change of one slot, whose thread is somewhere in its wait, with the count of waiters.
pub change-Sound :
    (f : Waiter → Waiter) (i n : ℕ) (ef : EventFlags) (h : Option Bits)
    → Sound ef h
    → (slot ef i).thread ≢ outside
    → (Seated ef.bits h (slot ef i) → Seated ef.bits h (f (slot ef i)))
    → n + inside (slot ef i).thread ≡ ef.waiter_count + inside (f (slot ef i)).thread
    → Sound (record (change f i ef) { waiter_count = n }) h
change-Sound f i n ef h v o g e = record {
  seated = update-AllSeated ef.bits h f i ef.waiters g v.seated;
  counted = omega (arith, v.counted, inside_count-update f i ef.waiters o, e);
}

pub set_bits-Sound :
    (ef : EventFlags) (bits : Bits) (h : Option Bits) → Sound ef h → Sound (set_bits ef bits) h
unfolding set_bits wake_matching
set_bits-Sound ef bits h v =
    let new = bit_or ef.bits bits in
    elim (Bool-cases (ef.waiter_count == 0)) [
      | inl b ↦
          let idle = sym v.counted ∙ ==→eq ef.waiter_count 0 b in
          rw b (record {
            seated = AllSeated-idle ef.bits new h h ef.waiters idle v.seated;
            counted = v.counted;
          })
      | inr b ↦ rw b (record {
        seated = wake_common-AllSeated ef.bits new h h ef.waiters v.seated;
        counted = v.counted ∙ sym (inside_count-wake_common new ef.waiters);
      })
    ]

pub wake_matching-Sound :
    (ef : EventFlags) (bits : Bits) → Sound ef (some bits) → Sound (wake_matching ef bits) none
unfolding wake_matching
wake_matching-Sound ef bits v = elim (Bool-cases (ef.waiter_count == 0)) [
  | inl b ↦
      let idle = sym v.counted ∙ ==→eq ef.waiter_count 0 b in
      rw b (record {
        seated = AllSeated-idle ef.bits ef.bits (some bits) none ef.waiters idle v.seated;
        counted = v.counted;
      })
  | inr b ↦ rw b (record {
    seated = wake_common-late ef.bits bits ef.waiters v.seated;
    counted = v.counted ∙ sym (inside_count-wake_common bits ef.waiters);
  })
]

pub clear_bits-Sound :
    (ef : EventFlags) (mask : Bits) (h : Option Bits) → Sound ef h → Sound (clear_bits ef mask) h
unfolding clear_bits
clear_bits-Sound ef mask h v = record {
  seated = AllSeated-clear ef.bits mask h ef.waiters v.seated;
  counted = v.counted;
}

pub on_exit-Sound :
    (clear : Bool) (mask : Bits) (ef : EventFlags)
    → Sound ef none
    → Sound (on_exit clear mask ef) none
on_exit-Sound true mask ef v = clear_bits-Sound ef mask none v
on_exit-Sound false mask ef v = v

pub begin_set-Sound : (ef : EventFlags) (bits : Bits) → Sound ef none → SoundIn (begin_set ef bits)
unfolding begin_set
begin_set-Sound ef bits v = record {
  seated = AllSeated-announce ef.bits (bit_or ef.bits bits) ef.waiters v.seated;
  counted = v.counted;
}

-- What each change does to a slot whose thread is where it has to be.
pub seat_change :
    (at : Thread → Bool) (f : Waiter → Waiter) (i n : ℕ) (ef : EventFlags) (next : Holder)
    → Sound ef none
    → late next ≡ none
    → (at (slot ef i).thread ≡ true → (slot ef i).thread ≢ outside)
    → (at (slot ef i).thread ≡ true
        → Seated ef.bits none (slot ef i)
        → Seated ef.bits none (f (slot ef i)))
    → (at (slot ef i).thread ≡ true
        → n + inside (slot ef i).thread ≡ ef.waiter_count + inside (f (slot ef i)).thread)
    → SoundIn (
        if at (slot ef i).thread
        then record { flags = record (change f i ef) { waiter_count = n }; holder = next }
        else record { flags = ef; holder = nobody })
seat_change at f i n ef next v l o g e = elim (Bool-cases (at (slot ef i).thread)) [
  | inr b ↦ rw b v
  | inl b ↦ rw (b, l) (change-Sound f i n ef none v (o b) (g b) (e b))
]
