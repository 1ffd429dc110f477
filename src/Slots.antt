-- ===== src/Slots.antt =====
-- The static pools of the emulated objects: a flag for each slot, taken by an atomic exchange.
use micr_osal.Common.{
  Option-cases, inl, inr, ℕ, suc, ◌<◌, ◌≡◌, refl, ap, Bool, true, false, Option, none, some, List,
  [], ◌∷◌, set, get_or, length, arith,
}

-- emu_sb_acquire and its like: the first slot whose flag was clear, with the flag set.
unfoldable pub acquire : List Bool → Option (ℕ × List Bool)
acquire [] = none
acquire (false ∷ used) = some (0, true ∷ used)
acquire (true ∷ used) = elim (acquire used) [
  | none ↦ none
  | some (i, used') ↦ some (suc i, true ∷ used')
]

-- emu_sb_release and its like: the flag of the object's slot is cleared.
unfoldable pub release : List Bool → ℕ → List Bool
release used i = set used i false

-- The slots taken.
abbrev pub taken : List Bool → ℕ
taken [] = 0
taken (true ∷ used) = suc (taken used)
taken (false ∷ used) = taken used

-- A slot is handed out only if it was free, is then in use, and releasing it restores the pool.
pub acquire-some :
    (used : List Bool) {i : ℕ} {used' : List Bool}
    → acquire used ≡ some (i, used')
    → (get_or used i true ≡ false)
      × (used' ≡ set used i true)
      × (i < length used)
      × (release used' i ≡ used)
      × (taken used' ≡ suc (taken used))
unfolding acquire release
acquire-some [] e = cc
acquire-some (false ∷ used) e = ground arith
acquire-some (true ∷ used) {i} {used'} e = elim (Option-cases (acquire used)) [
  | inl q ↦ ground arith
  | inr ((j, u), q) ↦
      let ih = acquire-some used q in
      let same : (suc j ≡ i) × (true ∷ u ≡ used') = ground arith in
      rw (← same.0, ← same.1)
        (ih.0, ap (λ l. true ∷ l) ih.1, omega (arith, ih.2), ap (λ l. true ∷ l) ih.3, ap suc ih.4)
]

-- The pool refuses exactly when every slot is taken.
pub acquire-none : (used : List Bool) → acquire used ≡ none → taken used ≡ length used
unfolding acquire
acquire-none [] e = refl
acquire-none (false ∷ used) e = cc
acquire-none (true ∷ used) e = elim (Option-cases (acquire used)) [
  | inl q ↦ ap suc (acquire-none used q)
  | inr ((j, u), q) ↦ ground arith
]
