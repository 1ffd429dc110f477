-- ===== src/Wait.antt =====
-- The loop of the calls that block in src/common/emulated_message_buffer.inl: try, give up when told
-- not to wait or when the timeout has passed, wait on a semaphore, and try again. It runs over a list
-- of rounds and gives `none` where they end while it is blocked.
use micr_osal.Common.{
  ℕ, ◌≡◌, ◌≢◌, sym, ap, ◌∙◌, ◌⊎◌, inl, inr, List, [], ◌∷◌, Option, none, some, true, arith, ◌==◌,
  if◌then◌else◌, Bool-cases, Option-cases, some-eq, none-ne,
}
use micr_osal.Tick.{no_wait, expired}

-- One round of a blocked call: what osal_clock_ticks gives, and what the other threads do to the
-- object until the semaphore's take comes back.
pub record Round (S : Type 0) : Type 0 where
  pub now : ℕ
  pub others : S → S

-- The other threads keep the object sound.
abbrev pub AllSteady : {S : Type 0} → (S → Type 0) → List (Round S) → Type 0
AllSteady {S} Valid [] = Unit
AllSteady {S} Valid (w ∷ ws) = ((x : S) → Valid x → Valid (w.others x)) × AllSteady Valid ws

-- A reading of the clock shows that the timeout has passed.
abbrev pub Passed : {S : Type 0} → ℕ → ℕ → List (Round S) → Type 0
Passed ticks start [] = ⊥
Passed ticks start (w ∷ ws) = (expired ticks start w.now ≡ true) ⊎ Passed ticks start ws

-- The object that a call sees after some of the rounds.
pub data Seen {S : Type 0} (wait : Round S → S → S) : List (Round S) → S → S → Type 0 where
  at_once : {ws : List (Round S)} {s : S} → Seen wait ws s s
  after :
      {w : Round S} {ws : List (Round S)} {s t : S}
      → Seen wait ws (wait w s) t
      → Seen wait (w ∷ ws) s t

-- The loop: `attempt` is what it does when it can go on, `late` its answer when it gives up, `wait`
-- the semaphore's take.
module _ {S A : Type 0} (attempt : S → Option (A × S)) (late : A) (wait : Round S → S → S) where
  unfoldable pub wait_until : ℕ → ℕ → S → List (Round S) → Option (A × S)
  wait_until ticks start s [] = elim (attempt s) [
    | some x ↦ some x
    | none ↦ if ticks == no_wait then some (late, s) else none
  ]
  wait_until ticks start s (w ∷ ws) =
      let rest = wait_until ticks start (wait w s) ws in
      elim (attempt s) [
        | some x ↦ some x
        | none ↦
            if ticks == no_wait
            then some (late, s)
            else if expired ticks start w.now
            then some (late, s)
            else rest
      ]

  -- A loop that ended tried once more on the object as it was after some of the rounds, and either
  -- went on there or gave up there and left it alone.
  abbrev pub Ended : List (Round S) → S → A → S → Type 0
  Ended ws s a s' =
      (t : S) × Seen wait ws s t
      × ((attempt t ≡ some (a, s')) ⊎ ((attempt t ≡ none) × (a ≡ late) × (s' ≡ t)))

  module _ (ticks start : ℕ) where
    gave_up :
        (s : S) {a : A} {s' : S}
        → attempt s ≡ none
        → ◌≡◌ {A = Option (A × S)} (some (late, s)) (some (a, s'))
        → (attempt s ≡ none) × (a ≡ late) × (s' ≡ s)
    gave_up s q e = let p = some-eq e in (q, ap (λ x. x.0) (sym p), ap (λ x. x.1) (sym p))

    pub wait_until_ends :
        (s : S) (ws : List (Round S)) {a : A} {s' : S}
        → wait_until ticks start s ws ≡ some (a, s')
        → Ended ws s a s'
    unfolding wait_until
    wait_until_ends s [] e = elim (Option-cases (attempt s)) [
      | inr (x, q) ↦ (s, at_once, inl (q ∙ (rw (q, wait_until) at e)))
      | inl q ↦ elim (Bool-cases (ticks == no_wait)) [
        | inl now ↦ (s, at_once, inr (gave_up s q (rw (q, now, wait_until) at e)))
        | inr more ↦ none-ne (rw (q, more, wait_until) at e)
      ]
    ]
    wait_until_ends s (w ∷ ws) e = elim (Option-cases (attempt s)) [
      | inr (x, q) ↦ (s, at_once, inl (q ∙ (rw (q, wait_until) at e)))
      | inl q ↦ elim (Bool-cases (ticks == no_wait)) [
        | inl now ↦ (s, at_once, inr (gave_up s q (rw (q, now, wait_until) at e)))
        | inr more ↦ elim (Bool-cases (expired ticks start w.now)) [
          | inl over ↦ (s, at_once, inr (gave_up s q (rw (q, more, over, wait_until) at e)))
          | inr again ↦
              let ih = wait_until_ends (wait w s) ws (rw (q, more, again, wait_until) at e) in
              (ih.0, after ih.1, ih.2)
        ]
      ]
    ]

    -- The loop ends by the first reading that shows the timeout to have passed.
    pub wait_until-ne-none :
        (s : S) (ws : List (Round S))
        → (ticks ≡ no_wait) ⊎ Passed ticks start ws
        → wait_until ticks start s ws ≢ none
    unfolding wait_until
    wait_until-ne-none s [] h = ground arith
    wait_until-ne-none s (w ∷ ws) (inl e) = ground arith
    wait_until-ne-none s (w ∷ ws) (inr (inl over)) = ground arith
    wait_until-ne-none s (w ∷ ws) (inr (inr more)) =
        let ih = wait_until-ne-none (wait w s) ws (inr more) in ground arith

-- A property that the other threads and the wait keep holds of the object that the call sees.
pub Seen-keeps :
    {S : Type 0} {wait : Round S → S → S} {ws : List (Round S)} {s t : S} (Valid : S → Type 0)
    → ((w : Round S) → (x : S) → Valid (w.others x) → Valid (wait w x))
    → AllSteady Valid ws
    → Valid s
    → Seen wait ws s t
    → Valid t
Seen-keeps Valid kept st v at_once = v
Seen-keeps {s = s} Valid kept st v (after {w = w} more) =
    Seen-keeps Valid kept st.1 (kept w s (st.0 s v)) more
