-- ===== src/MemoryPool/Words.antt =====
-- The bitmap against the plain list of its bits: the search through the words finds the first block
-- that is free.
use micr_osal.Common.{
  ℕ, zero, suc, ◌+◌, ◌-◌, ◌*◌, ◌≤◌, ◌<◌, ◌≡◌, refl, sym, ap, ap₂, ◌∙◌, ◌⊎◌, inl, inr, List, [], ◌∷◌,
  ◌++◌, Option, none, some, Bool, true, false, arith, length, take, set, Bool-cases, lt-or-ge,
}
use micr_osal.Slots
use micr_osal.Common.{length-take}
use micr_osal.Common.{size_mod, sub_size, le→leb, lt→leb_false, take-append}
use mathlib.Core.Bool.{false≢true}
use micr_osal.Common.{min, Option-cases}
use micr_osal.MemoryPool.{
  Word, word_not, word_and, is_nonzero, low_ones, word_mask, first_free_bit, alloc_words,
}

-- The bits of the words, one after another.
abbrev pub flat : List Word → List Bool
flat [] = []
flat (x ∷ xs) = x ++ flat xs

-- Each word has its 32 bits.
abbrev pub Full : List Word → Type 0
Full [] = Unit
Full (x ∷ xs) = (length x ≡ 32) × Full xs

-- What is free among the first `n` bits of `x`.
abbrev free_bits : ℕ → Word → Word
free_bits n x = word_and (word_not x) (low_ones (length x) n)

no_bits : (x : Word) → is_nonzero (free_bits 0 x) ≡ false
no_bits [] = refl
no_bits (b ∷ x) = ground (arith, no_bits x)

-- The first free bit is the slot that the flags' own search takes.
free_bits-acquire :
    (x : Word) (n : ℕ)
    → n ≤ length x
    → is_nonzero (free_bits n x) ≡ true
    → let b = first_free_bit (free_bits n x) in
      (b < n)
      × (Slots.acquire (take n x) ≡ some (b, take n (set x b true)))
      × (length (set x b true) ≡ length x)
unfolding first_free_bit Slots.acquire
free_bits-acquire [] n h e = cc
free_bits-acquire (b ∷ x) zero h e = absurd (false≢true (sym (no_bits (b ∷ x)) ∙ e))
free_bits-acquire (true ∷ x) (suc n) h e =
    let ih = free_bits-acquire x n (omega arith) e in (omega (arith, ih.0), rw (ih.1), ap suc ih.2)
free_bits-acquire (false ∷ x) (suc n) h e = (omega arith, refl, refl)

-- A search that goes on behind slots that are all taken.
behind : ℕ → List Bool → Option (ℕ × List Bool) → Option (ℕ × List Bool)
behind n front none = none
behind n front (some (i, used)) = some (n + i, front ++ used)

-- If no bit is free there, the search goes on behind them.
free_bits-none :
    (x : Word) (n : ℕ) (rest : List Bool)
    → n ≤ length x
    → is_nonzero (free_bits n x) ≡ false
    → Slots.acquire (take n x ++ rest) ≡ behind n (take n x) (Slots.acquire rest)
unfolding Slots.acquire behind
free_bits-none x zero rest h e = ground arith
free_bits-none [] (suc n) rest h e = absurd (omega arith)
free_bits-none (true ∷ x) (suc n) rest h e =
    let ih = free_bits-none x n rest (omega arith) e in ground arith
free_bits-none (false ∷ x) (suc n) rest h e = cc

acquire-append :
    (front rest : List Bool) {i : ℕ} {used : List Bool}
    → Slots.acquire front ≡ some (i, used)
    → Slots.acquire (front ++ rest) ≡ some (i, used ++ rest)
unfolding Slots.acquire
acquire-append [] rest e = cc
acquire-append (false ∷ front) rest e = ground arith
acquire-append (true ∷ front) rest {i} {used} e = elim (Option-cases (Slots.acquire front)) [
  | inl q ↦ ground arith
  | inr ((j, u), q) ↦ let ih = acquire-append front rest q in ground arith
]

-- The mask of a word keeps its bits below the number of blocks.
word_mask_lem :
    (x : Word) (block_count w : ℕ)
    → length x ≡ 32
    → w * 32 ≤ block_count
    → block_count < size_mod
    → word_and (word_not x) (word_mask block_count w) ≡ free_bits (min 32 (block_count - w * 32)) x
unfolding word_mask
word_mask_lem x block_count w e h small =
    let r = block_count - w * 32 in
    let s : sub_size block_count (w * 32) ≡ r = omega arith in
    elim (lt-or-ge r 32) [
      | inl part ↦ let m : min 32 r ≡ r = omega arith in rw (s, lt→leb_false 32 r part, m, e)
      | inr whole ↦ let m : min 32 r ≡ 32 = omega arith in rw (s, le→leb 32 r whole, m, e)
    ]

-- What the search through the words from word `w` on finds is what the search through the bits of
-- the blocks from there on finds.
abbrev pub Finds : ℕ → ℕ → List Word → Type 0
Finds block_count w xs =
    let r = block_count - w * 32 in
    ((alloc_words block_count w xs ≡ none) × (Slots.acquire (take r (flat xs)) ≡ none))
    ⊎ ((i : ℕ) × (ys : List Word) × (alloc_words block_count w xs ≡ some (w * 32 + i, ys))
        × (Slots.acquire (take r (flat xs)) ≡ some (i, take r (flat ys)))
        × Full ys
        × (length ys ≡ length xs))

pub alloc_words-acquire :
    (block_count w : ℕ) (xs : List Word)
    → Full xs
    → block_count ≤ (w + length xs) * 32
    → (w + length xs) * 32 < block_count + 32
    → block_count < size_mod
    → Finds block_count w xs
unfolding alloc_words Slots.acquire behind
alloc_words-acquire block_count w [] full many few small =
    let z : block_count - w * 32 ≡ 0 = omega arith in rw z (inl (refl, refl))
alloc_words-acquire block_count w (x ∷ xs) full many few small =
    let r = block_count - w * 32 in
    let r' = block_count - suc w * 32 in
    let m = min 32 r in
    let masked = word_mask_lem x block_count w full.0 (omega arith) small in
    let next : r - 32 ≡ r' = omega arith in
    let parts : (y : Word) (zs : List Bool)
        → length y ≡ 32
        → take r (y ++ zs) ≡ take m y ++ take r' zs =
      λ y zs e. take-append r y zs ∙ rw (e, next) refl in
    elim (Bool-cases (is_nonzero (free_bits m x))) [
      | inl found ↦
          let a = free_bits-acquire x m (omega (arith, full.0)) found in
          let b = first_free_bit (free_bits m x) in
          let y = set x b true in
          inr (
            b,
            y ∷ xs,
            rw (masked, found) refl,
            ap Slots.acquire (parts x (flat xs) full.0)
                ∙ acquire-append (take m x) (take r' (flat xs)) a.1
                ∙ ap (λ l. some (b, l)) (sym (parts y (flat xs) (a.2 ∙ full.0))),
            (a.2 ∙ full.0, full.1),
            refl,
          )
      | inr nothing ↦
          let ih =
            alloc_words-acquire block_count (suc w) xs full.1 (omega arith) (omega arith) small in
          let onward : Slots.acquire (take r (x ++ flat xs))
              ≡ behind m (take m x) (Slots.acquire (take r' (flat xs))) =
            ap Slots.acquire (parts x (flat xs) full.0)
            ∙ free_bits-none x m (take r' (flat xs)) (omega (arith, full.0)) nothing in
          elim ih [
            | inl p ↦ inl (rw (masked, nothing, p.0) refl, onward ∙ ap (behind m (take m x)) p.1)
            | inr p ↦
                let inside = (Slots.acquire-some (take r' (flat xs)) p.3).2 in
                let whole : m ≡ 32 = omega (arith, inside, length-take r' (flat xs)) in
                let at : suc w * 32 + p.0 ≡ w * 32 + (32 + p.0) = omega arith in
                inr (
                  32 + p.0,
                  x ∷ p.1,
                  rw (masked, nothing, p.2) (ap (λ k. some (k, x ∷ p.1)) at),
                  onward
                      ∙ ap (behind m (take m x)) p.3
                      ∙ ap₂ (λ k l. some (k, l)) (ap (λ k. k + p.0) whole)
                          (sym (parts x (flat p.1) full.0)),
                  (full.0, p.4),
                  ap suc p.5,
                )
          ]
    ]
