-- ===== src/CondWait.antt =====
-- The loops that wait on a condition variable in src/common/emulated_rwlock.inl,
-- src/common/emulated_work_queue.inl and src/common/emulated_barrier.inl: while the test fails, give up
-- when the timeout has passed, wait, and give up on an answer that is fatal. A loop runs over a list of
-- waits and gives `none` where they end while it is blocked.
use micr_osal.Common.{
  ℕ, ◌≡◌, ◌≢◌, sym, ap, ◌∙◌, ◌⊎◌, inl, inr, List, [], ◌∷◌, Option, none, some, Bool, true, false,
  arith, not, ◌&&◌, if◌then◌else◌, subst, Bool-cases, some-eq, none-ne, if◌then◌else◌,
}
use micr_osal.Error.{Result, ok, timeout, is_ok}
use micr_osal.Tick.{expired}

-- One wait: what osal_clock_ticks gave before it, what the other threads do to the object during it,
-- and what osal_condvar_wait returns.
pub record Turn (S : Type 0) : Type 0 where
  pub now : ℕ
  pub others : S → S
  pub answer : Result

-- The object as the call sees it after some of its waits.
pub data Reached {S : Type 0} : List (Turn S) → S → S → Type 0 where
  here : {ts : List (Turn S)} {s : S} → Reached ts s s
  later :
      {t : Turn S} {ts : List (Turn S)} {s s' : S}
      → Reached ts (t.others s) s'
      → Reached (t ∷ ts) s s'

-- A reading of the clock shows that the timeout has passed.
abbrev pub Late : {S : Type 0} → ℕ → ℕ → List (Turn S) → Type 0
Late ticks start [] = ⊥
Late ticks start (t ∷ ts) = (expired ticks start t.now ≡ true) ⊎ Late ticks start ts

-- What the other threads do keeps a property of the object.
abbrev pub Keeps : {S : Type 0} → (S → Type 0) → List (Turn S) → Type 0
Keeps {S} P [] = Unit
Keeps {S} P (t ∷ ts) = ((x : S) → P x → P (t.others x)) × Keeps P ts

pub Reached-keeps :
    {S : Type 0} {ts : List (Turn S)} {s t : S} (P : S → Type 0)
    → Keeps P ts
    → P s
    → Reached ts s t
    → P t
Reached-keeps P k p here = p
Reached-keeps {s = s} P k p (later more) = Reached-keeps P k.1 (k.0 s p) more

-- The loop's result as that of a call on a handle.
abbrev pub returned {ℓ} : {S : Type ℓ} → Option (Result × S) → Option (Result × Option S)
returned none = none
returned (some (r, s)) = some (r, some s)

pub returned-eq_some {ℓ} :
    {S : Type ℓ} (o : Option (Result × S)) {r : Result} {h : Option S}
    → returned o ≡ some (r, h)
    → (s : S) × (o ≡ some (r, s)) × (h ≡ some s)
returned-eq_some none e = none-ne e
returned-eq_some (some (b, s)) e =
    let p = some-eq e in (s, ap (λ x. some (x.0, s)) p, ap (λ x. x.1) (sym p))

abbrev pub is_timeout : Result → Bool
is_timeout timeout = true
is_timeout _ = false

-- Any failure, and any failure but a timeout.
abbrev pub any_failure : Result → Bool
any_failure r = not (is_ok r)

abbrev pub but_timeout : Result → Bool
but_timeout r = not (is_ok r) && not (is_timeout r)

pub any_failure-ne : (r : Result) → any_failure r ≡ true → r ≢ ok
any_failure-ne r e = ground arith

pub but_timeout-ne : (r : Result) → but_timeout r ≡ true → r ≢ ok
but_timeout-ne r e = ground arith

timeout-ne : timeout ≢ ok
timeout-ne e = cc

module _ {S : Type 0} (blocked : S → Bool) (enter : S → S) (fatal : Result → Bool) where
  -- The loop: `blocked` is the test it waits on, `enter` the store when it passes.
  unfoldable pub cond_wait : ℕ → ℕ → S → List (Turn S) → Option (Result × S)
  cond_wait ticks start s [] = if blocked s then none else some (ok, enter s)
  cond_wait ticks start s (t ∷ ts) =
      let rest = cond_wait ticks start (t.others s) ts in
      if not (blocked s)
      then some (ok, enter s)
      else if expired ticks start t.now
      then some (timeout, s)
      else if fatal t.answer
      then some (t.answer, t.others s)
      else rest

  -- The wait of some turn, before which no object that was seen let it in and no answer was fatal,
  -- gave the answer `r`, which is fatal, or the clock had passed the timeout; the object is left as it
  -- was found then.
  pub data GaveUp (ticks start : ℕ) : S → List (Turn S) → Result → S → Type 0 where
    too_late :
        {s : S} {t : Turn S} {ts : List (Turn S)}
        → blocked s ≡ true
        → expired ticks start t.now ≡ true
        → GaveUp ticks start s (t ∷ ts) timeout s
    refused :
        {s : S} {t : Turn S} {ts : List (Turn S)}
        → blocked s ≡ true
        → fatal t.answer ≡ true
        → GaveUp ticks start s (t ∷ ts) t.answer (t.others s)
    goes_on :
        {s s' : S} {t : Turn S} {ts : List (Turn S)} {r : Result}
        → blocked s ≡ true
        → fatal t.answer ≡ false
        → GaveUp ticks start (t.others s) ts r s'
        → GaveUp ticks start s (t ∷ ts) r s'

  -- It entered an object that did not block it, or failed and left the object alone.
  abbrev pub CondEnd : List (Turn S) → S → Result → S → Type 0
  CondEnd ts s r s' =
      (seen : S) × Reached ts s seen
      × (((r ≡ ok) × (blocked seen ≡ false) × (s' ≡ enter seen)) ⊎ ((r ≢ ok) × (s' ≡ seen)))

  module _ (ticks start : ℕ) where
    entered :
        (s : S) (ts : List (Turn S)) {r : Result} {s' : S}
        → blocked s ≡ false
        → ◌≡◌ {A = Option (Result × S)} (some (ok, enter s)) (some (r, s'))
        → CondEnd ts s r s'
    entered s ts free e =
        let p = some-eq e in (s, here, inl (ap (λ x. x.0) (sym p), free, ap (λ x. x.1) (sym p)))

    failed :
        (s seen : S) (ts : List (Turn S)) {q r : Result} {s' : S}
        → Reached ts s seen
        → q ≢ ok
        → ◌≡◌ {A = Option (Result × S)} (some (q, seen)) (some (r, s'))
        → CondEnd ts s r s'
    failed s seen ts there bad e =
        let p = some-eq e in
        (seen, there, inr (λ z. bad (ap (λ x. x.0) p ∙ z), ap (λ x. x.1) (sym p)))

    pub cond_wait-ends :
        (s : S) (ts : List (Turn S)) {r : Result} {s' : S}
        → ((q : Result) → fatal q ≡ true → q ≢ ok)
        → cond_wait ticks start s ts ≡ some (r, s')
        → CondEnd ts s r s'
    unfolding cond_wait
    cond_wait-ends s [] bad e = elim (Bool-cases (blocked s)) [
      | inl b ↦ none-ne (rw b at e)
      | inr f ↦ entered s [] f (rw f at e)
    ]
    cond_wait-ends s (t ∷ ts) bad e = elim (Bool-cases (blocked s)) [
      | inr f ↦ entered s (t ∷ ts) f (rw f at e)
      | inl b ↦ elim (Bool-cases (expired ticks start t.now)) [
        | inl over ↦ failed s s (t ∷ ts) here timeout-ne (rw (b, over) at e)
        | inr more ↦ elim (Bool-cases (fatal t.answer)) [
          | inl f ↦
              failed s (t.others s) (t ∷ ts) (later here) (bad t.answer f) (rw (b, more, f) at e)
          | inr again ↦
              let ih = cond_wait-ends (t.others s) ts bad (rw (b, more, again) at e) in
              (ih.0, later ih.1, ih.2)
        ]
      ]
    ]

    -- The loop ends by the first reading that shows the timeout to have passed.
    pub cond_wait-ne-none :
        (s : S) (ts : List (Turn S)) → Late ticks start ts → cond_wait ticks start s ts ≢ none
    unfolding cond_wait
    cond_wait-ne-none s [] late = absurd late
    cond_wait-ne-none s (t ∷ ts) (inl over) = ground arith
    cond_wait-ne-none s (t ∷ ts) (inr more) =
        let ih = cond_wait-ne-none (t.others s) ts more in ground arith

    -- A loop that fails did so for one of the two reasons.
    pub cond_wait-GaveUp :
        (s : S) (ts : List (Turn S)) {r : Result} {s' : S}
        → cond_wait ticks start s ts ≡ some (r, s')
        → (r ≡ ok) ⊎ GaveUp ticks start s ts r s'
    unfolding cond_wait
    cond_wait-GaveUp s [] {r} e = elim (Bool-cases (blocked s)) [
      | inl b ↦ none-ne (rw b at e)
      | inr f ↦ inl (ap (λ x. x.0) (sym (some-eq (rw f at e))))
    ]
    cond_wait-GaveUp s (t ∷ ts) {r} {s'} e = elim (Bool-cases (blocked s)) [
      | inr f ↦ inl (ap (λ x. x.0) (sym (some-eq (rw f at e))))
      | inl b ↦
          let Left : Result × S → Type 0 = λ x. GaveUp ticks start s (t ∷ ts) x.0 x.1 in
          elim (Bool-cases (expired ticks start t.now)) [
            | inl over ↦ inr (subst Left (some-eq (rw (b, over) at e)) (too_late b over))
            | inr more ↦ elim (Bool-cases (fatal t.answer)) [
              | inl f ↦ inr (subst Left (some-eq (rw (b, more, f) at e)) (refused b f))
              | inr again ↦ elim (cond_wait-GaveUp (t.others s) ts (rw (b, more, again) at e)) [
                | inl good ↦ inl good
                | inr left ↦ inr (goes_on b again left)
              ]
            ]
          ]
    ]
