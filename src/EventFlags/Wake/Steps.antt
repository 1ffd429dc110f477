-- ===== src/EventFlags/Wake/Steps.antt =====
-- What holds of event flags along the steps of threads and interrupts.
use micr_osal.Common.{
  ℕ, zero, suc, ◌+◌, ◌-◌, ◌≤◌, ◌≡◌, refl, sym, ◌∙◌, inl, inr, List, [], ◌∷◌, Option, none, some,
  subst, Bool, true, false, get_or, arith, Bool-cases, Option-cases,
}
use micr_osal.EventFlags.{
  Bits, Thread, arriving, looking, blocked, awake, Waiter, EventFlags, free_slot, fresh, matches,
  claim, marked_active, enrolled, unpended, given_back, asleep_in, departing, reopened, taken,
}
use micr_osal.EventFlags.Wake.Slots.{Seat, Seated, inside, inside_count, claim-AllSeated}
use micr_osal.EventFlags.Wake.System.{
  Holder, nobody, wakes_for, enters, marks, counts, second_look, reopens, exits, unpends,
  gives_back, System, Action, interrupts, sets, clears, begins, looks, expires, wakes, goes_on,
  is_arriving, is_looking, is_awake, is_blocked, slot, begin_wait, look, look_again, expire,
  claim_slot, count_slot, hand_back, holder_step, locked, when_free, taken_at, step, run,
}
use micr_osal.EventFlags.Wake.Sound.{
  late, Sound, SoundIn, lookup, change-Sound, set_bits-Sound, wake_matching-Sound, clear_bits-Sound,
  on_exit-Sound, begin_set-Sound, seat_change,
}

-- What is known of a slot from where its thread is.
Seat-arriving :
    (bits : Bits) (t : Thread) (w : Waiter)
    → is_arriving t ≡ true
    → Seat bits none t w
    → (t ≡ arriving) × Seat bits none arriving w
Seat-arriving bits arriving w e s = (refl, s)
Seat-arriving bits _ w e s = absurd (cc)

Seat-looking :
    (bits : Bits) (t : Thread) (w : Waiter)
    → is_looking t ≡ true
    → Seat bits none t w
    → (t ≡ looking) × Seat bits none looking w
Seat-looking bits looking w e s = (refl, s)
Seat-looking bits _ w e s = absurd (cc)

Seat-awake :
    (bits : Bits) (t : Thread) (w : Waiter)
    → is_awake t ≡ true
    → Seat bits none t w
    → (t ≡ awake) × Seat bits none awake w
Seat-awake bits awake w e s = (refl, s)
Seat-awake bits _ w e s = absurd (cc)

Seat-blocked :
    (bits : Bits) (h : Option Bits) (t : Thread) (w : Waiter)
    → is_blocked t ≡ true
    → Seat bits h t w
    → (t ≡ blocked) × Seat bits h blocked w
Seat-blocked bits h blocked w e s = (refl, s)
Seat-blocked bits h _ w e s = absurd (cc)

marks-SoundIn :
    (i : ℕ) (clear : Bool) (ef : EventFlags)
    → Sound ef none
    → SoundIn (holder_step (marks i clear) ef)
unfolding holder_step
marks-SoundIn i clear ef v =
    let w = slot ef i in
    let at : is_arriving w.thread ≡ true → (w.thread ≡ arriving) × Seat ef.bits none arriving w =
      λ b. Seat-arriving ef.bits w.thread w b (lookup ef.bits none i ef.waiters v.seated).2 in
    seat_change is_arriving marked_active i ef.waiter_count ef (counts i clear) v refl
      (λ b. let a = (at b).0 in λ z. absurd (cc))
      (λ b s. let a = at b in (s.0, s.1, rw (a.0) (a.1))) (λ b. refl)

counts-SoundIn :
    (i : ℕ) (clear : Bool) (ef : EventFlags)
    → Sound ef none
    → SoundIn (holder_step (counts i clear) ef)
unfolding holder_step count_slot
counts-SoundIn i clear ef v =
    let w = slot ef i in
    let at : is_arriving w.thread ≡ true → (w.thread ≡ arriving) × Seat ef.bits none arriving w =
      λ b. Seat-arriving ef.bits w.thread w b (lookup ef.bits none i ef.waiters v.seated).2 in
    seat_change is_arriving enrolled i (ef.waiter_count + 1) ef (second_look i clear) v refl
      (λ b. let a = (at b).0 in λ z. absurd (cc))
      (λ b s. let a = at b in (s.0, s.1, (a.1.0, refl, a.1.1)))
      (λ b. let a = at b in rw (a.0) (omega arith))

reopens-SoundIn :
    (i : ℕ) (clear : Bool) (ef : EventFlags)
    → Sound ef none
    → SoundIn (holder_step (reopens i clear) ef)
unfolding holder_step
reopens-SoundIn i clear ef v =
    let w = slot ef i in
    let at : is_awake w.thread ≡ true → (w.thread ≡ awake) × Seat ef.bits none awake w =
      λ b. Seat-awake ef.bits w.thread w b (lookup ef.bits none i ef.waiters v.seated).2 in
    seat_change is_awake reopened i ef.waiter_count ef (second_look i clear) v refl
      (λ b. let a = (at b).0 in λ z. absurd (cc))
      (λ b s. let a = at b in (s.0, s.1, (a.1.0, a.1.1, inl refl)))
      (λ b. let a = at b in rw (a.0) refl)

unpends-SoundIn : (i : ℕ) (ef : EventFlags) → Sound ef none → SoundIn (holder_step (unpends i) ef)
unfolding holder_step
unpends-SoundIn i ef v =
    let w = slot ef i in
    let at : is_awake w.thread ≡ true → (w.thread ≡ awake) × Seat ef.bits none awake w =
      λ b. Seat-awake ef.bits w.thread w b (lookup ef.bits none i ef.waiters v.seated).2 in
    seat_change is_awake unpended i ef.waiter_count ef (gives_back i) v refl
      (λ b. let a = (at b).0 in λ z. absurd (cc))
      (λ b s. let a = at b in (s.0, s.1, rw (a.0) (a.1))) (λ b. refl)

inside-le : (i : ℕ) (ws : List Waiter) → inside (get_or ws i free_slot).thread ≤ inside_count ws
unfolding inside_count
inside-le i [] = omega arith
inside-le zero (w ∷ ws) = omega arith
inside-le (suc i) (w ∷ ws) = let ih = inside-le i ws in omega arith

counted-positive :
    (ef : EventFlags) (i : ℕ) → Sound ef none → inside (slot ef i).thread ≡ 1 → 1 ≤ ef.waiter_count
counted-positive ef i v e = omega (arith, v.counted, inside-le i ef.waiters, e)

gives_back-SoundIn :
    (i : ℕ) (ef : EventFlags) → Sound ef none → SoundIn (holder_step (gives_back i) ef)
unfolding holder_step hand_back
gives_back-SoundIn i ef v =
    let w = slot ef i in
    let at : is_awake w.thread ≡ true → (w.thread ≡ awake) × Seat ef.bits none awake w =
      λ b. Seat-awake ef.bits w.thread w b (lookup ef.bits none i ef.waiters v.seated).2 in
    seat_change is_awake given_back i (ef.waiter_count - 1) ef nobody v refl
      (λ b. let a = (at b).0 in λ z. absurd (cc)) (λ b s. (s.0, s.1, (refl, refl)))
      (λ b.
        let a = at b in
        let p = counted-positive ef i v (rw (a.0) refl) in rw (a.0) (omega (arith, p)))

second_look-SoundIn :
    (i : ℕ) (clear : Bool) (ef : EventFlags)
    → Sound ef none
    → SoundIn (holder_step (second_look i clear) ef)
unfolding holder_step look_again
second_look-SoundIn i clear ef v =
    let w = slot ef i in
    let at : is_looking w.thread ≡ true → (w.thread ≡ looking) × Seat ef.bits none looking w =
      λ b. Seat-looking ef.bits w.thread w b (lookup ef.bits none i ef.waiters v.seated).2 in
    elim (Bool-cases (matches ef.bits w.wait_bits w.wait_all)) [
      | inl m ↦ rw m (
          seat_change is_looking departing i ef.waiter_count ef (exits (some i) w.wait_bits clear) v
            refl (λ b. let a = (at b).0 in λ z. absurd (cc))
            (λ b s. let a = at b in (s.0, s.1, (a.1.0, a.1.1)))
            (λ b. let a = at b in rw (a.0) refl))
      | inr m ↦ rw m (
          seat_change is_looking asleep_in i ef.waiter_count ef nobody v refl
            (λ b. let a = (at b).0 in λ z. absurd (cc))
            (λ b s. let a = at b in (s.0, s.1, (a.1.0, a.1.1, a.1.2, inl m)))
            (λ b. let a = at b in rw (a.0) refl))
    ]

expire-SoundIn : (ef : EventFlags) (i : ℕ) → Sound ef none → SoundIn (expire ef i)
unfolding expire
expire-SoundIn ef i v =
    let w = slot ef i in
    let at : is_blocked w.thread ≡ true → (w.thread ≡ blocked) × Seat ef.bits none blocked w =
      λ b. Seat-blocked ef.bits none w.thread w b (lookup ef.bits none i ef.waiters v.seated).2 in
    seat_change is_blocked departing i ef.waiter_count ef (unpends i) v refl
      (λ b. let a = (at b).0 in λ z. absurd (cc))
      (λ b s. let a = at b in (s.0, s.1, (a.1.0, a.1.1))) (λ b. let a = at b in rw (a.0) refl)

look-SoundIn : (ef : EventFlags) (i : ℕ) (clear : Bool) → Sound ef none → SoundIn (look ef i clear)
unfolding look
look-SoundIn ef i clear v =
    let w = slot ef i in
    elim (Bool-cases (is_awake w.thread)) [
      | inr b ↦ rw b v
      | inl b ↦ elim (Bool-cases (matches ef.bits w.wait_bits w.wait_all)) [
        | inl m ↦ rw (b, m) v
        | inr m ↦ rw (b, m) v
      ]
    ]

begin_wait-late :
    (ef : EventFlags) (want : Bits) (all clear : Bool) → late (begin_wait ef want all clear) ≡ none
unfolding begin_wait
begin_wait-late ef want all clear = ground arith

claim_slot-SoundIn :
    (ef : EventFlags) (want : Bits) (all clear : Bool)
    → Sound ef none
    → SoundIn (claim_slot ef want all clear)
unfolding claim_slot
claim_slot-SoundIn ef want all clear v = elim (Option-cases (claim want all ef.waiters)) [
  | inl q ↦ rw (q, claim_slot) v
  | inr ((i, ws), q) ↦
      let c = claim-AllSeated ef.bits none want all ef.waiters v.seated q in
      rw (q, claim_slot) (record { seated = c.0; counted = v.counted ∙ sym (c.1) })
]

exits-SoundIn :
    (own : Option ℕ) (mask : Bits) (clear : Bool) (ef : EventFlags)
    → Sound ef none
    → SoundIn (holder_step (exits own mask clear) ef)
unfolding holder_step
exits-SoundIn none mask clear ef v = on_exit-Sound clear mask ef v
exits-SoundIn (some i) mask clear ef v = on_exit-Sound clear mask ef v

holder_step-SoundIn :
    (h : Holder) (ef : EventFlags) → Sound ef (late h) → SoundIn (holder_step h ef)
unfolding holder_step
holder_step-SoundIn nobody ef v = v
holder_step-SoundIn (wakes_for bits) ef v = wake_matching-Sound ef bits v
holder_step-SoundIn (enters want all clear) ef v = claim_slot-SoundIn ef want all clear v
holder_step-SoundIn (marks i clear) ef v = marks-SoundIn i clear ef v
holder_step-SoundIn (counts i clear) ef v = counts-SoundIn i clear ef v
holder_step-SoundIn (second_look i clear) ef v = second_look-SoundIn i clear ef v
holder_step-SoundIn (reopens i clear) ef v = reopens-SoundIn i clear ef v
holder_step-SoundIn (exits own mask clear) ef v = exits-SoundIn own mask clear ef v
holder_step-SoundIn (unpends i) ef v = unpends-SoundIn i ef v
holder_step-SoundIn (gives_back i) ef v = gives_back-SoundIn i ef v

locked-SoundIn : (ef : EventFlags) (a : Action) → Sound ef none → SoundIn (locked ef a)
unfolding locked
locked-SoundIn ef (sets bits) v = begin_set-Sound ef bits v
locked-SoundIn ef (clears bits) v = clear_bits-Sound ef bits none v
locked-SoundIn ef (begins want all clear) v =
    subst (Sound ef) (sym (begin_wait-late ef want all clear)) v
locked-SoundIn ef (looks i clear) v = look-SoundIn ef i clear v
locked-SoundIn ef (expires i) v = expire-SoundIn ef i v
locked-SoundIn ef _ v = v

when_free-SoundIn :
    (h : Holder) (ef : EventFlags) (a : Action)
    → Sound ef (late h)
    → SoundIn (when_free h (locked ef a) (record { flags = ef; holder = h }))
when_free-SoundIn nobody ef a v = locked-SoundIn ef a v
when_free-SoundIn _ ef a v = v

taken_at-Sound : (ef : EventFlags) (i : ℕ) (h : Option Bits) → Sound ef h → Sound (taken_at ef i) h
unfolding taken_at
taken_at-Sound ef i h v =
    let w = slot ef i in
    let s = lookup ef.bits h i ef.waiters v.seated in
    elim (Bool-cases (is_blocked w.thread)) [
      | inr b ↦ rw b v
      | inl b ↦
          let a = Seat-blocked ef.bits h w.thread w b s.2 in
          rw b (
            change-Sound taken i ef.waiter_count ef h v (let t = a.0 in λ z. absurd (cc))
              (λ x. (ground (arith, s.0), ground (arith, s.1), (a.1.0, a.1.1))) (rw (a.0) refl))
    ]

step-SoundIn : (s : System) (a : Action) → SoundIn s → SoundIn (step s a)
unfolding step
step-SoundIn s (interrupts bits) v = set_bits-Sound s.flags bits (late s.holder) v
step-SoundIn s (wakes i) v = taken_at-Sound s.flags i (late s.holder) v
step-SoundIn s goes_on v = holder_step-SoundIn s.holder s.flags v
step-SoundIn s a v = when_free-SoundIn s.holder s.flags a v

run-SoundIn : (s : System) (xs : List Action) → SoundIn s → SoundIn (run s xs)
unfolding run
run-SoundIn s [] v = v
run-SoundIn s (x ∷ xs) v = run-SoundIn (step s x) xs (step-SoundIn s x v)

abbrev pub fresh_system : System
fresh_system = record { flags = fresh; holder = nobody }

fresh-SoundIn : SoundIn fresh_system
unfolding inside_count
fresh-SoundIn =
    let f : Seated [] none free_slot = (refl, omega arith, (refl, refl)) in
    record { seated = (f, (f, (f, (f, (f, (f, (f, (f, tt)))))))); counted = refl }

-- Slot `i` and the flags after some steps.
abbrev pub after : List Action → System
after xs = run fresh_system xs

abbrev pub slot_after : List Action → ℕ → Waiter
slot_after xs i = slot (after xs).flags i

abbrev pub is_waking : Holder → Bool
is_waking (wakes_for bits) = true
is_waking _ = false

late-none : (h : Holder) → is_waking h ≡ false → late h ≡ none
late-none (wakes_for bits) e = absurd (cc)
late-none _ e = refl

-- However threads wait, wake, look again, give up, set and clear flags at event flags as they were
-- created, and interrupts set flags between any two accesses of the thread that has the guard: at any
-- time but between the store of a set and the wake that it is about to do, a thread that is blocked in a
-- slot and whose wait the flags match has a token for its semaphore.
pub no_lost_event :
    (xs : List Action) (i : ℕ)
    → is_waking (after xs).holder ≡ false
    → (slot_after xs i).thread ≡ blocked
    → matches (after xs).flags.bits (slot_after xs i).wait_bits (slot_after xs i).wait_all ≡ true
    → (slot_after xs i).sem.count ≡ 1
no_lost_event xs i n e m =
    let ef = (after xs).flags in
    let v = run-SoundIn fresh_system xs fresh-SoundIn in
    let v' = subst (Sound ef) (late-none (after xs).holder n) v in
    let s = lookup ef.bits none i ef.waiters v'.seated in
    let b = Seat-blocked ef.bits none (slot_after xs i).thread (slot_after xs i) (rw e refl) s.2 in
    ground (arith, b.1)
