-- ===== src/MemoryPool/Allocate.antt =====
-- osal_memory_pool_allocate against the set of blocks that are out.

use micr_osal.Common.{
  ℕ, suc, ◌+◌, ◌-◌, ◌*◌, ◌%◌, ◌≤◌, ◌<◌, ◌≡◌, refl, sym, ap, ◌∙◌, ◌⊎◌, inl, inr, List, Option, none,
  some, arith, length, take, size_mod, add_size, lt→leb_false,
}
use micr_osal.Error.{ok, would_block}
use micr_osal.Semaphore.{Semaphore, try_take}
use micr_osal.Slots
use micr_osal.Common.{lt-or-ge, lt→ltb, le→ltb}
use micr_osal.Slots.{taken}
use micr_osal.MemoryPool.{MemoryPool, Word, alloc_words, bitmap_alloc, claim, allocate}
use micr_osal.MemoryPool.Words.{flat, Full, alloc_words-acquire}
use micr_osal.MemoryPool.Inv.{IsValid, out, length-out}

-- The address of a block.
abbrev pub address : MemoryPool → ℕ → ℕ
address p i = p.buffer + i * p.block_size

-- An allocation found nothing free and changed nothing, or handed out the lowest free block.
abbrev pub Allocated : MemoryPool → Option ℕ → Option MemoryPool → Type 0
Allocated p block h =
    ((p.available ≡ 0) × (block ≡ none) × (h ≡ some p))
    ⊎ ((i : ℕ) × (p' : MemoryPool) × (block ≡ some (address p i))
        × (h ≡ some p')
        × (Slots.acquire (out p) ≡ some (i, out p'))
        × (i < p.block_count)
        × (address p' ≡ address p)
        × IsValid p')

-- A block's address does not wrap.
address_lem :
    (p : MemoryPool) (i : ℕ)
    → IsValid p
    → i < p.block_count
    → add_size p.buffer (i * p.block_size % size_mod) ≡ address p i
address_lem p i v h =
    let below : i * p.block_size ≤ p.block_count * p.block_size = grind arith in
    omega (arith, v.room)

-- The search through all the words.
search :
    (p : MemoryPool)
    → IsValid p
    → ((alloc_words p.block_count 0 p.bitmap ≡ none) × (Slots.acquire (out p) ≡ none))
      ⊎ ((i : ℕ) × (ys : List Word) × (alloc_words p.block_count 0 p.bitmap ≡ some (i, ys))
          × (Slots.acquire (out p) ≡ some (i, take p.block_count (flat ys)))
          × Full ys
          × (length ys ≡ length p.bitmap))
search p v =
    let z : p.block_count - 0 * 32 ≡ p.block_count = omega arith in
    let found =
      alloc_words-acquire p.block_count 0 p.bitmap v.full (omega (arith, v.many))
        (omega (arith, v.exact)) (omega (arith, v.few)) in
    elim found [
      | inl f ↦ inl (f.0, ap (λ n. Slots.acquire (take n (flat p.bitmap))) (sym z) ∙ f.1)
      | inr f ↦
          let k : 0 * 32 + f.0 ≡ f.0 = omega arith in
          inr (
            f.0,
            f.1,
            f.2 ∙ ap (λ i. some (i, f.1)) k,
            ap (λ n. Slots.acquire (take n (flat p.bitmap))) (sym z)
                ∙ f.3
                ∙ ap (λ n. some (f.0, take n (flat f.1))) z,
            f.4,
            f.5,
          )
    ]

-- The pool after an allocation that found block `i`.
abbrev handed : MemoryPool → List Word → MemoryPool
handed p ys = record p {
  sem = record (p.sem) { count = p.sem.count - 1 };
  bitmap = ys;
  available = p.available - 1;
}

handed-IsValid :
    (p : MemoryPool) (ys : List Word)
    → IsValid p
    → Full ys
    → length ys ≡ length p.bitmap
    → taken (take p.block_count (flat ys)) ≡ suc (taken (out p))
    → taken (take p.block_count (flat ys)) ≤ p.block_count
    → IsValid (handed p ys)
handed-IsValid p ys v full same more bound = record {
  sized = v.sized;
  peopled = v.peopled;
  few = v.few;
  room = v.room;
  full = full;
  many = omega (arith, v.many);
  exact = omega (arith, v.exact);
  counted = omega (arith, v.counted);
  sem_count = omega (arith, v.sem_count);
  sem_max = v.sem_max;
}

bitmap_alloc-some :
    (p : MemoryPool) {i : ℕ} {ys : List Word}
    → alloc_words p.block_count 0 p.bitmap ≡ some (i, ys)
    → bitmap_alloc p ≡ (i, record p { bitmap = ys; available = p.available - 1 })
unfolding bitmap_alloc
bitmap_alloc-some p e = rw (e, bitmap_alloc)

try_take-ok : (s : Semaphore) → 0 < s.count → try_take s ≡ (ok, record s { count = s.count - 1 })
unfolding try_take
try_take-ok s h = rw (lt→ltb 0 s.count h)

try_take-empty : (s : Semaphore) → s.count ≡ 0 → try_take s ≡ (would_block, s)
unfolding try_take
try_take-empty s h = rw (le→ltb 0 s.count (omega arith))

claim-found :
    (p : MemoryPool) (sem : Semaphore) {i : ℕ} {ys : List Word}
    → IsValid p
    → alloc_words p.block_count 0 p.bitmap ≡ some (i, ys)
    → i < p.block_count
    → claim (ok, sem) p
      ≡ (some (address p i), record p { sem = sem; bitmap = ys; available = p.available - 1 })
unfolding claim
claim-found p sem {i} {ys} v e h = rw (
  bitmap_alloc-some (record p { sem = sem }) e,
  lt→leb_false p.block_count i h,
  address_lem p i v h,
)

claim-empty : (p : MemoryPool) (sem : Semaphore) → claim (would_block, sem) p ≡ (none, p)
unfolding claim
claim-empty p sem = refl

-- `allocate` on a valid pool hands out the lowest block that is not out, whose address does not wrap,
-- marks only that block as out and keeps the pool valid; it gives nullptr exactly when no block is
-- free, and then changes nothing.
pub allocate_lem :
    (p : MemoryPool) → IsValid p → let (block, h) = allocate (some p) in Allocated p block h
unfolding allocate
allocate_lem p v = elim (lt-or-ge 0 p.sem.count) [
  | inl token ↦ elim (search p v) [
    | inl nothing ↦ absurd (
        omega (arith, v.sem_count, v.counted, length-out p v, Slots.acquire-none (out p) nothing.1))
    | inr f ↦
        let at = Slots.acquire-some (out p) f.3 in
        let i_in : f.0 < p.block_count = omega (arith, at.2, length-out p v) in
        let bound : taken (take p.block_count (flat f.1)) ≤ p.block_count =
          omega (arith, at.4, v.counted, v.sem_count) in
        rw
          (
            try_take-ok p.sem token,
            claim-found p (record (p.sem) { count = p.sem.count - 1 }) v f.2 i_in,
          )
          (inr (
            f.0,
            handed p f.1,
            refl,
            refl,
            f.3,
            i_in,
            refl,
            handed-IsValid p f.1 v f.4 f.5 at.4 bound,
          ))
  ]
  | inr empty ↦
      rw (try_take-empty p.sem (omega arith), claim-empty)
        (inl (omega (arith, v.sem_count), refl, refl))
]
