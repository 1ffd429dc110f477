-- ===== src/Clock/Ticks.antt =====
-- The conversions against exact division.
use micr_osal.Common.{
  ℕ, ◌+◌, ◌-◌, ◌*◌, ◌/◌, ◌%◌, ◌^◌, ◌≤◌, ◌<◌, ◌≡◌, ap, ◌∙◌, inl, inr, arith, ltb, if◌then◌else◌, min,
  lt-or-ge, lt→ltb, le→ltb, ne→==, subst,
}
use native.Mathlib.Nat.{
  eq-zero-or-pos, div-eq_of_lt, mul-le-mul_right, div-add-mod', mod-lt, mul-add-div_right,
  div-lt_iff_lt-mul, div-mul-le_self, lt-div-mul-add,
}
use micr_osal.Clock.{
  pos, u64, sub_u64, k_max, remainder_ticks, known_period, ms_to_ticks, ticks_to_ms,
}

-- The least number of whole periods that is at least `n`.
abbrev pub ceiling : ℕ → ℕ → ℕ
ceiling n period = (n + (period - 1)) / period

saturated :
    (q c : ℕ)
    → c ≤ 1000
    → (if ltb (sub_u64 k_max c / 1000) q
        then k_max
        else if ltb (u64 (u64 (q * 1000) + c)) k_max
        then u64 (u64 (q * 1000) + c)
        else k_max)
      ≡ min k_max (q * 1000 + c)
saturated q c h = elim (lt-or-ge (sub_u64 k_max c / 1000) q) [
  | inl big ↦ rw (lt→ltb (sub_u64 k_max c / 1000) q big) (omega arith)
  | inr fits ↦
      let exact : u64 (u64 (q * 1000) + c) ≡ q * 1000 + c = omega arith in
      rw (le→ltb (sub_u64 k_max c / 1000) q fits, exact) (ground arith)
]

module _ (period : ℕ) (positive : 0 < period) where
  -- The ceiling covers `n`, and by less than one period more.
  pub ceiling-le : (n : ℕ) → n ≤ ceiling n period * period
  ceiling-le n = omega (arith, lt-div-mul-add {a = n + (period - 1)} {b = period} positive)

  pub ceiling-lt : (n : ℕ) → ceiling n period * period < n + period
  ceiling-lt n = omega (arith, div-mul-le_self (n + (period - 1)) period)

  -- Whole periods come out of the ceiling.
  ceiling-split :
      (raw : ℕ)
      → ceiling (raw * 1000) period ≡ raw / period * 1000 + ceiling (raw % period * 1000) period
  ceiling-split raw =
      ap (λ x. x / period) {x = raw * 1000 + (period - 1)}
        {y = raw / period * 1000 * period + (raw % period * 1000 + (period - 1))} whole
      ∙ mul-add-div_right positive (raw / period * 1000) (raw % period * 1000 + (period - 1))
    where
      whole :
          raw * 1000 + (period - 1)
          ≡ raw / period * 1000 * period + (raw % period * 1000 + (period - 1))
      whole =
          let split : (raw / period * period + raw % period) * 1000 ≡ raw * 1000 =
            ap (λ x. x * 1000) (div-add-mod' raw period) in
          omega (arith, split)

  rest-le : (raw : ℕ) → ceiling (raw % period * 1000) period ≤ 1000
  rest-le raw =
      let r = mod-lt raw positive in
      let q =
        (div-lt_iff_lt-mul {k = period} {x = raw % period * 1000 + (period - 1)} {y = 1001}
          positive).1 in
      omega (arith, r, q (omega (arith, r)))

  module _ (small : period < 2 ^ 32) where
    remainder_ticks_lem :
        (raw : ℕ) → remainder_ticks period (raw % period) ≡ ceiling (raw % period * 1000) period
    remainder_ticks_lem raw =
        let r = mod-lt raw positive in
        ap (λ x. x / period) {x = sub_u64 (u64 (u64 (raw % period * 1000) + period)) 1}
          {y = raw % period * 1000 + (period - 1)} (omega (arith, r))

    known_period_lem : (raw : ℕ) → known_period period raw ≡ min k_max (ceiling (raw * 1000) period)
    unfolding known_period
    known_period_lem raw =
        let c = ceiling (raw % period * 1000) period in
        rw (remainder_ticks_lem raw, ceiling-split raw) (saturated (raw / period) c (rest-le raw))

-- The conversion of `n` milliseconds to ticks of `period` microseconds, 0 < period < 2 ^ 32, is the
-- number of periods that cover them, rounded up, and at most the longest finite timeout, however the
-- steps in between are cut off to 64 bits.
pub ms_to_ticks_exact :
    (period n : ℕ)
    → 0 < period
    → period < 2 ^ 32
    → ms_to_ticks period (pos n) ≡ min k_max (ceiling (n * 1000) period)
unfolding ms_to_ticks
ms_to_ticks_exact period n positive small = elim (eq-zero-or-pos n) [
  | inl z ↦
      let none_left : ceiling (n * 1000) period ≡ 0 =
        div-eq_of_lt {n = n * 1000 + (period - 1)} {m = period} (omega arith) in
      rw (ne→== period 0 (omega arith)) (ground arith)
  | inr more ↦
      let same = known_period_lem period positive small n in
      rw (ne→== n 0 (omega arith), ne→== period 0 (omega arith), same) (omega arith)
]

-- A conversion to ticks and back of `n` milliseconds, where the ticks that cover them are fewer than
-- the longest finite timeout, never falls short of them, and exceeds them by less than a period.
pub ms_round_trip :
    (period n : ℕ)
    → 0 < period
    → period < 2 ^ 32
    → ceiling (n * 1000) period < k_max
    → let back = ticks_to_ms period (ms_to_ticks period (pos n)) in
      (n ≤ back) × (back * 1000 < n * 1000 + period)
unfolding ticks_to_ms
ms_round_trip period n positive small short =
    let c = ceiling (n * 1000) period in
    let there : ms_to_ticks period (pos n) ≡ c =
      subst (λ m. ms_to_ticks period (pos n) ≡ m) {x = min k_max c} {y = c} (omega arith)
        (ms_to_ticks_exact period n positive small) in
    let covers = ceiling-le period positive (n * 1000) in
    let close = ceiling-lt period positive (n * 1000) in
    let whole = mul-le-mul_right {m = c} {n = k_max} period (omega arith) in
    rw there (omega arith, omega arith)
