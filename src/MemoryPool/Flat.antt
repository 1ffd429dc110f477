-- ===== src/MemoryPool/Flat.antt =====
-- A block's bit in its word, and the same bit in the plain list of bits.
use micr_osal.Common.{
  ℕ, suc, ◌+◌, ◌-◌, ◌*◌, ◌/◌, ◌%◌, ◌<◌, ◌≡◌, refl, sym, ap, ◌∙◌, inl, inr, List, [], ◌∷◌, ◌++◌,
  false, arith, length, get_or, set, lt-or-ge, length-append, length-set, get_or-append_left,
  get_or-append_right, set-append_left, set-append_right,
}
use micr_osal.MemoryPool.{Word, is_out}
use micr_osal.MemoryPool.Words.{flat, Full}

pub length-flat : (xs : List Word) → Full xs → length (flat xs) ≡ length xs * 32
length-flat [] f = omega arith
length-flat (x ∷ xs) f = omega (arith, length-append x (flat xs), f.0, length-flat xs f.1)

-- Clearing a bit of its word.
abbrev pub cleared : List Word → ℕ → List Word
cleared xs idx = set xs (idx / 32) (set (get_or xs (idx / 32) []) (idx % 32) false)

pub is_out-flat :
    (xs : List Word) (idx : ℕ)
    → Full xs
    → idx < length xs * 32
    → is_out xs idx ≡ get_or (flat xs) idx false
is_out-flat [] idx f h = absurd (omega arith)
is_out-flat (x ∷ xs) idx f h = elim (lt-or-ge idx 32) [
  | inl first ↦
      let w : idx / 32 ≡ 0 = omega arith in
      let b : idx % 32 ≡ idx = omega arith in
      rw (w, b) (sym (get_or-append_left x (flat xs) idx false (omega (arith, f.0))))
  | inr later ↦
      let k = idx - 32 in
      let w : idx / 32 ≡ suc (k / 32) = omega arith in
      let b : idx % 32 ≡ k % 32 = omega arith in
      let i : length x + k ≡ idx = omega (arith, f.0) in
      rw (w, b)
        (is_out-flat xs k f.1 (omega arith)
          ∙ sym (get_or-append_right x (flat xs) k false)
          ∙ ap (λ j. get_or (x ++ flat xs) j false) i)
]

pub flat-cleared :
    (xs : List Word) (idx : ℕ)
    → Full xs
    → idx < length xs * 32
    → (flat (cleared xs idx) ≡ set (flat xs) idx false)
      × Full (cleared xs idx)
      × (length (cleared xs idx) ≡ length xs)
flat-cleared [] idx f h = absurd (omega arith)
flat-cleared (x ∷ xs) idx f h = elim (lt-or-ge idx 32) [
  | inl first ↦
      let w : idx / 32 ≡ 0 = omega arith in
      let b : idx % 32 ≡ idx = omega arith in
      rw (w, b)
        (
          sym (set-append_left x (flat xs) idx false (omega (arith, f.0))),
          (length-set x idx false ∙ f.0, f.1),
          refl,
        )
  | inr later ↦
      let k = idx - 32 in
      let w : idx / 32 ≡ suc (k / 32) = omega arith in
      let b : idx % 32 ≡ k % 32 = omega arith in
      let i : length x + k ≡ idx = omega (arith, f.0) in
      let ih = flat-cleared xs k f.1 (omega arith) in
      rw (w, b)
        (
          ap (λ l. x ++ l) ih.0
              ∙ sym (set-append_right x (flat xs) k false)
              ∙ ap (λ j. set (x ++ flat xs) j false) i,
          (f.0, ih.1),
          ap suc ih.2,
        )
]
