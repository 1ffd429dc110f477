-- ===== src/EventFlags/Wake/Slots.antt =====
-- The waiter slots, one by one: what holds of each, and what keeps it.
use micr_osal.Common.{
  ℕ, zero, suc, ◌+◌, ◌≤◌, ◌≡◌, ◌≢◌, refl, ap, ◌⊎◌, inl, inr, List, [], ◌∷◌, Option, none, some,
  Bool, true, false, if◌then◌else◌, get_or, arith, Bool-cases, Option-cases, some-eq, none-ne,
  subst,
}
use micr_osal.Semaphore.{Semaphore, give, try_take}
use micr_osal.EventFlags.{
  Bits, Thread, outside, arriving, looking, blocked, awake, Waiter, free_slot, matches, bit_clear,
  to_wake, token_given, wake_common, registered, claim, update,
}
use micr_osal.EventFlags.Bits.{matches-clear}

-- Whether a wake for some flags, which is still to come, is for the slot.
abbrev pub ToCome : Option Bits → Waiter → Type 0
ToCome none w = ⊥
ToCome (some b) w = matches b w.wait_bits w.wait_all ≡ true

-- A pending wake is a token.
abbrev pub Backed : Waiter → Type 0
Backed w = (w.wake_pending ≡ false) ⊎ (w.sem.count ≡ 1)

-- What holds of a slot under the flags `bits`, when the wake for `late` is still to come: a free one is
-- not in use; a blocked thread whose wait matches has a pending wake or will be woken.
abbrev pub Seat : Bits → Option Bits → Thread → Waiter → Type 0
Seat bits late outside w = (w.in_use ≡ false) × (w.active ≡ false)
Seat bits late arriving w = (w.in_use ≡ true) × Backed w
Seat bits late looking w = (w.in_use ≡ true) × (w.active ≡ true) × Backed w
Seat bits late blocked w =
    (w.in_use ≡ true)
    × (w.active ≡ true)
    × Backed w
    × ((matches bits w.wait_bits w.wait_all ≡ false) ⊎ (w.wake_pending ≡ true) ⊎ ToCome late w)
Seat bits late awake w = (w.in_use ≡ true) × (w.active ≡ true)

abbrev pub Seated : Bits → Option Bits → Waiter → Type 0
Seated bits late w = (w.sem.max_count ≡ 1) × (w.sem.count ≤ 1) × Seat bits late w.thread w

abbrev pub AllSeated : Bits → Option Bits → List Waiter → Type 0
AllSeated bits late [] = Unit
AllSeated bits late (w ∷ ws) = Seated bits late w × AllSeated bits late ws

-- How many threads waiter_count has counted.
abbrev pub inside : Thread → ℕ
inside outside = 0
inside arriving = 0
inside looking = 1
inside blocked = 1
inside awake = 1

unfoldable pub inside_count : List Waiter → ℕ
inside_count [] = 0
inside_count (w ∷ ws) = inside w.thread + inside_count ws

-- What changes every slot at once.
AllSeated-map :
    (bits bits' : Bits) (late late' : Option Bits) (ws : List Waiter)
    → ((w : Waiter) → Seated bits late w → Seated bits' late' w)
    → AllSeated bits late ws
    → AllSeated bits' late' ws
AllSeated-map bits bits' late late' [] f a = tt
AllSeated-map bits bits' late late' (w ∷ ws) f a =
    (f w a.0, AllSeated-map bits bits' late late' ws f a.1)

-- Clearing flags keeps every slot.
Seat-clear :
    (bits mask : Bits) (late : Option Bits) (t : Thread) (w : Waiter)
    → Seat bits late t w
    → Seat (bit_clear bits mask) late t w
Seat-clear bits mask late outside w s = s
Seat-clear bits mask late arriving w s = s
Seat-clear bits mask late looking w s = s
Seat-clear bits mask late awake w s = s
Seat-clear bits mask late blocked w s =
    let m = matches-clear bits mask w.wait_bits w.wait_all in
    elim (s.3) [
      | inr p ↦ (s.0, s.1, s.2, inr p)
      | inl n ↦ elim m [ inl k ↦ (s.0, s.1, s.2, inl k) | inr k ↦ ground arith ]
    ]

pub AllSeated-clear :
    (bits mask : Bits) (late : Option Bits) (ws : List Waiter)
    → AllSeated bits late ws
    → AllSeated (bit_clear bits mask) late ws
AllSeated-clear bits mask late ws =
    AllSeated-map bits (bit_clear bits mask) late late ws
      (λ w s. (s.0, s.1, Seat-clear bits mask late w.thread w s.2))

-- The flags change, and the wake for them is still to come.
Seat-announce :
    (bits new : Bits) (t : Thread) (w : Waiter) → Seat bits none t w → Seat new (some new) t w
Seat-announce bits new outside w s = s
Seat-announce bits new arriving w s = s
Seat-announce bits new looking w s = s
Seat-announce bits new awake w s = s
Seat-announce bits new blocked w s = elim (Bool-cases (matches new w.wait_bits w.wait_all)) [
  | inl m ↦ (s.0, s.1, s.2, inr (inr m))
  | inr m ↦ (s.0, s.1, s.2, inl m)
]

pub AllSeated-announce :
    (bits new : Bits) (ws : List Waiter) → AllSeated bits none ws → AllSeated new (some new) ws
AllSeated-announce bits new ws =
    AllSeated-map bits new none (some new) ws
      (λ w s. (s.0, s.1, Seat-announce bits new w.thread w s.2))

-- Where no thread is counted, none is blocked, and the flags do not matter.
Seat-idle :
    (bits bits' : Bits) (late late' : Option Bits) (t : Thread) (w : Waiter)
    → inside t ≡ 0
    → Seat bits late t w
    → Seat bits' late' t w
Seat-idle bits bits' late late' outside w e s = s
Seat-idle bits bits' late late' arriving w e s = s
Seat-idle bits bits' late late' _ w e s = absurd (omega (arith, e))

pub AllSeated-idle :
    (bits bits' : Bits) (late late' : Option Bits) (ws : List Waiter)
    → inside_count ws ≡ 0
    → AllSeated bits late ws
    → AllSeated bits' late' ws
unfolding inside_count
AllSeated-idle bits bits' late late' [] z a = tt
AllSeated-idle bits bits' late late' (w ∷ ws) z a = (
  (a.0.0, a.0.1, Seat-idle bits bits' late late' w.thread w (omega (arith, z)) a.0.2),
  AllSeated-idle bits bits' late late' ws (omega (arith, z)) a.1,
)

-- The slot with its fields apart.
abbrev slot_of : Semaphore → Bool → Bool → Bool → Bits → Bool → Thread → Waiter
slot_of sem a u p b all t = record {
  sem = sem;
  active = a;
  in_use = u;
  wake_pending = p;
  wait_bits = b;
  wait_all = all;
  thread = t;
}

abbrev woken_by : Bits → Waiter → Waiter
woken_by bits w = if to_wake bits w then token_given w else w

-- A wake leaves every slot right for the flags that it was made with.
wake-slot_of :
    (old bits : Bits) (late late' : Option Bits) (sem : Semaphore) (a u p : Bool) (b : Bits)
    (all : Bool) (t : Thread)
    → Seated old late (slot_of sem a u p b all t)
    → Seated bits late' (woken_by bits (slot_of sem a u p b all t))
unfolding give
wake-slot_of old bits late late' sem a u p b all outside s = ground arith
wake-slot_of old bits late late' sem a u p b all awake s = ground arith
wake-slot_of old bits late late' sem a u p b all arriving s = ground arith
wake-slot_of old bits late late' sem a u p b all looking s = ground arith
wake-slot_of old bits late late' sem a u p b all blocked s =
    elim (Bool-cases (matches bits b all)) [ inl m ↦ ground arith | inr m ↦ ground arith ]

-- The wake that was to come, while interrupts may have set more flags and woken for those.
late_wake-slot_of :
    (bits new : Bits) (sem : Semaphore) (a u p : Bool) (b : Bits) (all : Bool) (t : Thread)
    → Seated bits (some new) (slot_of sem a u p b all t)
    → Seated bits none (woken_by new (slot_of sem a u p b all t))
unfolding give
late_wake-slot_of bits new sem a u p b all outside s = ground arith
late_wake-slot_of bits new sem a u p b all awake s = ground arith
late_wake-slot_of bits new sem a u p b all arriving s = ground arith
late_wake-slot_of bits new sem a u p b all looking s = ground arith
late_wake-slot_of bits new sem a u p b all blocked s = elim (Bool-cases (matches new b all)) [
  | inl m ↦ ground arith
  | inr m ↦ ground arith
]

pub wake_common-AllSeated :
    (old bits : Bits) (late late' : Option Bits) (ws : List Waiter)
    → AllSeated old late ws
    → AllSeated bits late' (wake_common bits ws)
unfolding wake_common
wake_common-AllSeated old bits late late' [] a = tt
wake_common-AllSeated old bits late late' (w ∷ ws) a = (
  wake-slot_of old bits late late' w.sem w.active w.in_use w.wake_pending w.wait_bits w.wait_all
      w.thread a.0,
  wake_common-AllSeated old bits late late' ws a.1,
)

pub wake_common-late :
    (bits new : Bits) (ws : List Waiter)
    → AllSeated bits (some new) ws
    → AllSeated bits none (wake_common new ws)
unfolding wake_common
wake_common-late bits new [] a = tt
wake_common-late bits new (w ∷ ws) a = (
  late_wake-slot_of bits new w.sem w.active w.in_use w.wake_pending w.wait_bits w.wait_all w.thread
      a.0,
  wake_common-late bits new ws a.1,
)

pub inside_count-wake_common :
    (bits : Bits) (ws : List Waiter) → inside_count (wake_common bits ws) ≡ inside_count ws
unfolding inside_count wake_common
inside_count-wake_common bits [] = refl
inside_count-wake_common bits (w ∷ ws) =
    let ih = inside_count-wake_common bits ws in
    elim (Bool-cases (to_wake bits w)) [ inl b ↦ rw (b, ih) refl | inr b ↦ rw (b, ih) refl ]

inside-inactive :
    (bits : Bits) (late : Option Bits) (t : Thread) (w : Waiter)
    → w.active ≡ false
    → Seat bits late t w
    → inside t ≡ 0
inside-inactive bits late outside w e s = refl
inside-inactive bits late arriving w e s = refl
inside-inactive bits late looking w e s = ground (arith, s.1)
inside-inactive bits late blocked w e s = ground (arith, s.1)
inside-inactive bits late awake w e s = ground (arith, s.1)

pub claim-AllSeated :
    (bits : Bits) (late : Option Bits) (want : Bits) (all : Bool) (ws : List Waiter) {i : ℕ}
    {ws' : List Waiter}
    → AllSeated bits late ws
    → claim want all ws ≡ some (i, ws')
    → AllSeated bits late ws' × (inside_count ws' ≡ inside_count ws)
unfolding claim inside_count try_take
claim-AllSeated bits late want all [] a e = none-ne e
claim-AllSeated bits late want all (w ∷ ws) {i} {ws'} a e =
    let Good : List Waiter → Type 0 =
      λ l. AllSeated bits late l × (inside_count l ≡ inside_count (w ∷ ws)) in
    elim (Bool-cases w.active) [
      | inr b ↦
          let p = ap (λ x. x.1) (some-eq (rw (b, claim) at e)) in
          let r = registered want all w in
          let sound : Seated bits late r =
            (ground (arith, a.0.0), ground (arith, a.0.1), (refl, inl refl)) in
          let z = inside-inactive bits late w.thread w b a.0.2 in
          subst Good p ((sound, a.1), omega (arith, z))
      | inl b ↦ elim (Option-cases (claim want all ws)) [
        | inl q ↦ none-ne (rw (b, q, claim) at e)
        | inr ((j, l), q) ↦
            let p = ap (λ x. x.1) (some-eq (rw (b, q, claim) at e)) in
            let ih = claim-AllSeated bits late want all ws a.1 q in
            subst Good p ((a.0, ih.0), omega (arith, ih.1))
      ]
    ]

-- A change of one slot that keeps it.
pub update-AllSeated :
    (bits : Bits) (late : Option Bits) (f : Waiter → Waiter) (i : ℕ) (ws : List Waiter)
    → (Seated bits late (get_or ws i free_slot) → Seated bits late (f (get_or ws i free_slot)))
    → AllSeated bits late ws
    → AllSeated bits late (update f i ws)
unfolding update
update-AllSeated bits late f i [] g a = tt
update-AllSeated bits late f zero (w ∷ ws) g a = (g a.0, a.1)
update-AllSeated bits late f (suc i) (w ∷ ws) g a = (a.0, update-AllSeated bits late f i ws g a.1)

pub inside_count-update :
    (f : Waiter → Waiter) (i : ℕ) (ws : List Waiter)
    → (get_or ws i free_slot).thread ≢ outside
    → inside_count (update f i ws) + inside (get_or ws i free_slot).thread
      ≡ inside_count ws + inside (f (get_or ws i free_slot)).thread
unfolding update inside_count
inside_count-update f i [] n = absurd (n refl)
inside_count-update f zero (w ∷ ws) n = omega arith
inside_count-update f (suc i) (w ∷ ws) n = let ih = inside_count-update f i ws n in omega arith
