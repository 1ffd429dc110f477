-- ===== src/EventFlags/Wait.antt =====
-- emu_ef_wait of src/common/emulated_event_flags.inl as one call, whatever the other threads and the
-- interrupts do meanwhile.
use micr_osal.Common.{
  ℕ, ◌+◌, ◌≡◌, refl, ◌⊎◌, inl, inr, List, [], ◌∷◌, Option, none, some, Bool, true, false, ◌==◌,
  if◌then◌else◌, arith, Bool-cases, Option-cases, ==→eq, some-eq, none-ne, subst,
}
use micr_osal.Error.{Result, ok, timeout, would_block, out_of_resources, not_initialized}
use micr_osal.Tick.{no_wait, expired}
use micr_osal.EventFlags.{
  Bits, Waiter, EventFlags, matches, enrolled, bit_clear, clear_bits, claim, update, release_waiter,
  on_exit, reopened, taken,
}

-- One round of the loop: what osal_clock_ticks gives, what other threads and interrupts do until the
-- guard is locked again, and what interrupts do before the flags are looked at a second time.
pub record Round : Type 0 where
  pub now : ℕ
  pub others : EventFlags → EventFlags
  pub interrupts : EventFlags → EventFlags

-- A result, what is written to `actual`, and the object.
abbrev pub Answer : Type 0
Answer = Result × Option Bits × EventFlags

-- The object after the registration in slot `i`; after the take of a round; and when the slot is open
-- again.
abbrev pub registered_in : EventFlags → ℕ → List Waiter → EventFlags
registered_in ef i ws = record ef {
  waiters = update enrolled i ws;
  waiter_count = ef.waiter_count + 1;
}

abbrev pub woken_in : ℕ → Round → EventFlags → EventFlags
woken_in i t ef = let late = t.others ef in record late { waiters = update taken i late.waiters }

abbrev pub reopened_in : ℕ → Round → EventFlags → EventFlags
reopened_in i t ef =
    let seen = woken_in i t ef in
    t.interrupts (record seen { waiters = update reopened i seen.waiters })

module _ (wait_bits : Bits) (wait_all clear_on_exit : Bool) (exits : EventFlags → EventFlags) where
  -- The end of a wait that is matched, in slot `i`; `exits` is what interrupts do between the load of
  -- the flags that it reports and the change of its own ones.
  abbrev found : EventFlags → ℕ → Answer
  found ef i = (ok, some ef.bits, release_waiter (on_exit clear_on_exit wait_bits (exits ef)) i)

  -- The blocking loop in slot `i`; `none` where the rounds end while it is blocked.
  unfoldable pub wait_loop : ℕ → ℕ → ℕ → EventFlags → List Round → Option Answer
  wait_loop i ticks start ef [] = none
  wait_loop i ticks start ef (t ∷ ts) =
      let late = t.others ef in
      let seen = woken_in i t ef in
      let again = reopened_in i t ef in
      let rest = wait_loop i ticks start again ts in
      if expired ticks start t.now
      then some (timeout, some late.bits, release_waiter late i)
      else if matches seen.bits wait_bits wait_all
      then some (found seen i)
      else if matches again.bits wait_bits wait_all
      then some (found again i)
      else rest

  -- emu_ef_wait; `interrupts` is what interrupts do while it registers.
  unfoldable pub wait_flags :
      ℕ → ℕ → (EventFlags → EventFlags) → EventFlags → List Round → Option Answer
  wait_flags ticks start interrupts ef ts =
      let slot = claim wait_bits wait_all ef.waiters in
      if matches ef.bits wait_bits wait_all
      then some (ok, some ef.bits, on_exit clear_on_exit wait_bits (exits ef))
      else if ticks == no_wait
      then some (would_block, some ef.bits, ef)
      else (elim slot [
        | none ↦ some (out_of_resources, none, ef)
        | some (i, ws) ↦
            let seen = interrupts (registered_in ef i ws) in
            let rest = wait_loop i ticks start seen ts in
            if matches seen.bits wait_bits wait_all then some (found seen i) else rest
      ])

  -- The object as the loop finds it in slot `i` each time it looks at the flags: after the take, and
  -- again before it sleeps.
  pub data Looked (i : ℕ) : EventFlags → List Round → EventFlags → Type 0 where
    after_take :
        {ef : EventFlags} {t : Round} {ts : List Round} → Looked i ef (t ∷ ts) (woken_in i t ef)
    before_sleep :
        {ef : EventFlags} {t : Round} {ts : List Round} → Looked i ef (t ∷ ts) (reopened_in i t ef)
    next_round :
        {ef seen : EventFlags} {t : Round} {ts : List Round}
        → Looked i (reopened_in i t ef) ts seen
        → Looked i ef (t ∷ ts) seen

  -- The object as the loop finds it when a reading of the clock has shown the timeout to have passed.
  pub data RanOut (i ticks start : ℕ) : EventFlags → List Round → EventFlags → Type 0 where
    this_round :
        {ef : EventFlags} {t : Round} {ts : List Round}
        → expired ticks start t.now ≡ true
        → RanOut i ticks start ef (t ∷ ts) (t.others ef)
    later_round :
        {ef seen : EventFlags} {t : Round} {ts : List Round}
        → RanOut i ticks start (reopened_in i t ef) ts seen
        → RanOut i ticks start ef (t ∷ ts) seen

  -- In an object that it saw, the flags matched; it reports them, and takes away its own ones if that
  -- was asked for, and no other.
  abbrev pub FoundIn : EventFlags → Answer → Type 0
  FoundIn seen (r, actual, ef) =
      (r ≡ ok)
      × (actual ≡ some seen.bits)
      × (matches seen.bits wait_bits wait_all ≡ true)
      × (ef.bits
          ≡ (if clear_on_exit then bit_clear (exits seen).bits wait_bits else (exits seen).bits))

  -- How the loop in slot `i` ends: it found a match, or it ran out of time, reports the flags as they
  -- were then, and leaves them so.
  abbrev pub LoopEnded : ℕ → ℕ → ℕ → EventFlags → List Round → Answer → Type 0
  LoopEnded i ticks start ef ts (r, actual, ef') =
      ((seen : EventFlags) × Looked i ef ts seen × FoundIn seen (r, actual, ef'))
      ⊎ ((seen : EventFlags) × RanOut i ticks start ef ts seen
          × (r ≡ timeout)
          × (actual ≡ some seen.bits)
          × (ef'.bits ≡ seen.bits))

  bits-found :
      (ef : EventFlags) (i : ℕ)
      → (release_waiter (on_exit clear_on_exit wait_bits (exits ef)) i).bits
        ≡ (if clear_on_exit then bit_clear (exits ef).bits wait_bits else (exits ef).bits)
  unfolding release_waiter clear_bits
  bits-found ef i = ground arith

  found-FoundIn :
      (ef : EventFlags) (i : ℕ)
      → matches ef.bits wait_bits wait_all ≡ true
      → FoundIn ef (found ef i)
  found-FoundIn ef i m = (refl, refl, m, bits-found ef i)

  bits-on_exit :
      (ef : EventFlags)
      → (on_exit clear_on_exit wait_bits (exits ef)).bits
        ≡ (if clear_on_exit then bit_clear (exits ef).bits wait_bits else (exits ef).bits)
  unfolding clear_bits
  bits-on_exit ef = ground arith

  loop-LoopEnded :
      (i ticks start : ℕ) (ef : EventFlags) (ts : List Round) (x : Answer)
      → wait_loop i ticks start ef ts ≡ some x
      → LoopEnded i ticks start ef ts x
  unfolding wait_loop release_waiter
  loop-LoopEnded i ticks start ef [] x e = none-ne e
  loop-LoopEnded i ticks start ef (t ∷ ts) x e =
      let seen = woken_in i t ef in
      let again = reopened_in i t ef in
      let Ended : Answer → Type 0 = λ y. LoopEnded i ticks start ef (t ∷ ts) y in
      elim (Bool-cases (expired ticks start t.now)) [
        | inl over ↦
            subst Ended (some-eq (rw over at e))
              (inr (t.others ef, this_round over, refl, refl, refl))
        | inr more ↦ elim (Bool-cases (matches seen.bits wait_bits wait_all)) [
          | inl m ↦
              subst Ended (some-eq (rw (more, m) at e))
                (inl (seen, after_take, found-FoundIn seen i m))
          | inr n ↦ elim (Bool-cases (matches again.bits wait_bits wait_all)) [
            | inl m ↦
                subst Ended (some-eq (rw (more, n, m) at e))
                  (inl (again, before_sleep, found-FoundIn again i m))
            | inr k ↦ elim (loop-LoopEnded i ticks start again ts x (rw (more, n, k) at e)) [
              | inl p ↦ inl (p.0, next_round p.1, p.2)
              | inr (y, l, a, b, c) ↦ inr (y, later_round l, a, b, c)
            ]
          ]
        ]
      ]

  -- How a wait ends: it found a match in the object as it came, or as it was after the registration; it
  -- was not to wait, or found no free slot, and left the object as it came; or its loop ended.
  abbrev pub Ended : ℕ → ℕ → (EventFlags → EventFlags) → EventFlags → List Round → Answer → Type 0
  Ended ticks start interrupts ef ts (r, actual, ef') =
      FoundIn ef (r, actual, ef')
      ⊎ ((matches ef.bits wait_bits wait_all ≡ false)
          × ((ticks ≡ no_wait) × (r ≡ would_block) × (actual ≡ some ef.bits) × (ef' ≡ ef)))
      ⊎ ((matches ef.bits wait_bits wait_all ≡ false)
          × (claim wait_bits wait_all ef.waiters ≡ none)
          × (r ≡ out_of_resources)
          × (actual ≡ none)
          × (ef' ≡ ef))
      ⊎ ((i : ℕ) × (ws : List Waiter) × (claim wait_bits wait_all ef.waiters ≡ some (i, ws))
          × (FoundIn (interrupts (registered_in ef i ws)) (r, actual, ef')
              ⊎ LoopEnded i ticks start (interrupts (registered_in ef i ws)) ts (r, actual, ef')))

  -- A wait that returned, whatever other threads and interrupts did while it ran: it found flags that it
  -- matches, at once, after it had registered, or when it looked at them later, reports them, and
  -- changes none but its own, which it clears exactly if it was asked to; or it was not to wait or found
  -- no slot, and changed nothing; or the clock had passed its timeout, and it reports the flags as they
  -- were then and changes none.
  pub wait_exact :
      (ticks start : ℕ) (interrupts : EventFlags → EventFlags) (ef : EventFlags) (ts : List Round)
      (x : Answer)
      → wait_flags ticks start interrupts ef ts ≡ some x
      → Ended ticks start interrupts ef ts x
  unfolding wait_flags
  wait_exact ticks start interrupts ef ts x e =
      let End : Answer → Type 0 = λ y. Ended ticks start interrupts ef ts y in
      elim (Bool-cases (matches ef.bits wait_bits wait_all)) [
        | inl m ↦ subst End (some-eq (rw m at e)) (inl (refl, refl, m, bits-on_exit ef))
        | inr n ↦ elim (Bool-cases (ticks == no_wait)) [
          | inl z ↦
              let q = ==→eq ticks no_wait z in
              subst End (some-eq (rw (n, z) at e)) (inr (inl (n, (q, refl, refl, refl))))
          | inr z ↦ elim (Option-cases (claim wait_bits wait_all ef.waiters)) [
            | inl q ↦
                subst End (some-eq (rw (n, z, q) at e)) (inr (inr (inl (n, q, refl, refl, refl))))
            | inr ((i, ws), q) ↦
                let seen = interrupts (registered_in ef i ws) in
                elim (Bool-cases (matches seen.bits wait_bits wait_all)) [
                  | inl m ↦
                      subst End (some-eq (rw (n, z, q, m) at e))
                        (inr (inr (inr (i, ws, q, inl (found-FoundIn seen i m)))))
                  | inr k ↦ inr (
                      inr (
                        inr (
                          i,
                          ws,
                          q,
                          inr (loop-LoopEnded i ticks start seen ts x (rw (n, z, q, k) at e)),
                        )))
                ]
          ]
        ]
      ]

-- osal_event_flags_wait_any and osal_event_flags_wait_all
abbrev pub passed_on : Option Answer → Option (Result × Option Bits × Option EventFlags)
passed_on none = none
passed_on (some (r, actual, ef)) = some (r, actual, some ef)

unfoldable pub wait_any :
    (EventFlags → EventFlags)
    → Option EventFlags
    → Bits
    → Bool
    → ℕ
    → ℕ
    → (EventFlags → EventFlags)
    → List Round
    → Option (Result × Option Bits × Option EventFlags)
wait_any exits none wait_bits clear_on_exit ticks start interrupts ts =
    some (not_initialized, none, none)
wait_any exits (some ef) wait_bits clear_on_exit ticks start interrupts ts =
    passed_on (wait_flags wait_bits false clear_on_exit exits ticks start interrupts ef ts)

unfoldable pub wait_all :
    (EventFlags → EventFlags)
    → Option EventFlags
    → Bits
    → Bool
    → ℕ
    → ℕ
    → (EventFlags → EventFlags)
    → List Round
    → Option (Result × Option Bits × Option EventFlags)
wait_all exits none wait_bits clear_on_exit ticks start interrupts ts =
    some (not_initialized, none, none)
wait_all exits (some ef) wait_bits clear_on_exit ticks start interrupts ts =
    passed_on (wait_flags wait_bits true clear_on_exit exits ticks start interrupts ef ts)
