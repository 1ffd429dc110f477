-- ===== src/BmTimer/Periods.antt =====
-- How often the timers of src/bare_metal/bare_metal_backend.cpp call back.
use micr_osal.Common.{
  ℕ, zero, suc, ◌+◌, ◌-◌, ◌/◌, ◌%◌, ◌^◌, ◌<◌, ◌≡◌, sym, ap, ◌∙◌, inl, inr, true, arith, lt-or-ge,
  le→leb, lt→leb_false,
}
use native.Mathlib.Nat.{div-eq_of_lt, add-div_right}
use micr_osal.BmTimer.{Timer, fresh, due, armed, advance, ticks}

-- An armed timer that ends at `d`.
abbrev until : ℕ → ℕ → Timer
until period d = record {
  deadline = d;
  period = period;
  auto_reload = true;
  active = true;
  valid = true;
}

module _ (period : ℕ) (positive : 0 < period) where
  -- A periodic timer whose current period has run for `e` ticks.
  phased :
      (n now e : ℕ)
      → e < period
      → now + n + period < 2 ^ 64
      → (ticks n now (λ t. t) (until period (now + (period - e)))).0 ≡ (n + e) / period
  unfolding ticks advance
  phased zero now e h small = sym (div-eq_of_lt {n = 0 + e} {m = period} (omega arith))
  phased (suc n) now e h small =
      let up : (now + 1) % 2 ^ 64 ≡ now + 1 = omega arith in
      elim (lt-or-ge (e + 1) period) [
        | inl more ↦
            let early = lt→leb_false (now + (period - e)) (now + 1) (omega arith) in
            let ih = phased n (now + 1) (e + 1) more (omega arith) in
            let same : (ticks n (now + 1) (λ t. t) (until period (now + (period - e)))).0
                ≡ (suc n + e) / period =
              ap (λ d. (ticks n (now + 1) (λ t. t) (until period d)).0) {x = now + (period - e)}
                {y = now + 1 + (period - (e + 1))} (omega arith)
              ∙ ih
              ∙ ap (λ k. k / period) {x = n + (e + 1)} {y = suc n + e} (omega arith) in
            rw (up, early) (omega (arith, same))
        | inr last ↦
            let over = le→leb (now + (period - e)) (now + 1) (omega arith) in
            let ih = phased n (now + 1) 0 positive (omega arith) in
            let again : (ticks n (now + 1) (λ t. t) (until period (due (now + 1) period))).0
                ≡ n / period =
              ap (λ d. (ticks n (now + 1) (λ t. t) (until period d)).0) {x = due (now + 1) period}
                {y = now + 1 + (period - 0)} (omega arith)
              ∙ ih
              ∙ ap (λ k. k / period) {x = n + 0} {y = n} (omega arith) in
            let one_more : (suc n + e) / period ≡ n / period + 1 =
              ap (λ k. k / period) {x = suc n + e} {y = n + period} (omega arith)
              ∙ add-div_right n positive in
            rw (up, over, one_more) (omega (arith, again))
      ]

-- A periodic timer with a period above 0 that is started at tick `now`, whose callback leaves it alone,
-- has called back exactly as often as whole periods have passed, after any number of ticks for which
-- the counter of 64 bits does not run out.
pub periodic_calls :
    (n now period : ℕ)
    → 0 < period
    → now + n + period < 2 ^ 64
    → (ticks n now (λ t. t) (armed (fresh period true) now)).0 ≡ n / period
periodic_calls n now period positive small =
    ap (λ d. (ticks n now (λ t. t) (until period d)).0) {x = due now period}
      {y = now + (period - 0)} (omega arith)
    ∙ phased period positive n now 0 positive small
    ∙ ap (λ k. k / period) {x = n + 0} {y = n} (omega arith)
