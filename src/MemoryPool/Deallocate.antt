-- ===== src/MemoryPool/Deallocate.antt =====
-- osal_memory_pool_deallocate against the set of blocks that are out.

use micr_osal.Common.{
  ℕ, ◌+◌, ◌-◌, ◌*◌, ◌/◌, ◌%◌, ◌≤◌, ◌<◌, ◌≡◌, refl, sym, ap, ◌∙◌, ◌⊎◌, inl, inr, true, false, arith,
  take, get_or, size_mod, Bool-cases, ◌==◌, not, sub_size, le→leb, lt→leb_false, take-set,
  if◌then◌else◌,
}
use micr_osal.Error.{Result, ok, invalid_argument}
use micr_osal.Semaphore.{give}
use micr_osal.Slots
use micr_osal.Common.{lt-or-ge, lt→ltb, le→ltb}
use native.Mathlib.Nat.{
  div-lt_iff_lt-mul, mod-eq-sub-div-mul, div-mul-le_self, mul-mod_left, mul-div_cancel,
}
use micr_osal.Slots.{taken}
use micr_osal.MemoryPool.{MemoryPool, bitmap_free, give_back, is_out}
use micr_osal.MemoryPool.Words.{flat}
use micr_osal.MemoryPool.Flat.{is_out-flat, flat-cleared}
use micr_osal.MemoryPool.Inv.{IsValid, out, taken-release}
use micr_osal.MemoryPool.Allocate.{address}
use micr_osal.Common.{get_or-take, ==→eq, ==→ne}

-- A block that was given back was out and is free again; any other address was refused and changed
-- nothing.
abbrev pub Freed : MemoryPool → ℕ → Result → MemoryPool → Type 0
Freed p block r p' =
    ((i : ℕ) × (i < p.block_count)
      × (block ≡ address p i)
      × (get_or (out p) i false ≡ true)
      × (r ≡ ok)
      × (out p' ≡ Slots.release (out p) i)
      × IsValid p')
    ⊎ ((r ≡ invalid_argument)
        × (p' ≡ p)
        × ((i : ℕ) → i < p.block_count → block ≡ address p i → get_or (out p) i false ≡ false))

-- The block whose address is `offset` bytes after the storage's start.
block_at :
    (size count offset : ℕ)
    → 0 < size
    → offset < count * size
    → offset % size ≡ 0
    → (offset / size < count) × (offset ≡ offset / size * size)
block_at size count offset pos h z = (
  (div-lt_iff_lt-mul pos).1 h,
  omega (arith, mod-eq-sub-div-mul offset size, div-mul-le_self offset size),
)

block_of : (size i : ℕ) → 0 < size → (i * size % size ≡ 0) × (i * size / size ≡ i)
block_of size i pos = (mul-mod_left i size, mul-div_cancel i pos)

-- The pool after block `idx` is given back.
abbrev returned : MemoryPool → ℕ → MemoryPool
returned p idx = let p' = bitmap_free p idx in record p' { sem = (give p'.sem).1 }

returned-Freed :
    (p : MemoryPool) (i : ℕ)
    → IsValid p
    → i < p.block_count
    → get_or (out p) i false ≡ true
    → (out (returned p i) ≡ Slots.release (out p) i) × IsValid (returned p i)
unfolding bitmap_free give Slots.release
returned-Freed p i v h is_set =
    let c = flat-cleared p.bitmap i v.full (omega (arith, v.many)) in
    let same : out (returned p i) ≡ Slots.release (out p) i =
      ap (λ l. take p.block_count l) c.0 ∙ take-set p.block_count (flat p.bitmap) i false in
    let fewer = taken-release (out p) i is_set in
    (
      same,
      record {
        sized = v.sized;
        peopled = v.peopled;
        few = v.few;
        room = v.room;
        full = c.1;
        many = omega (arith, v.many, c.2);
        exact = omega (arith, v.exact, c.2);
        counted = omega (arith, v.counted, fewer, ap taken same);
        sem_count = ground (arith, v.counted, fewer, v.sem_count, v.sem_max);
        sem_max = ground (arith, v.sem_max);
      },
    )

-- The flag of a block, in its word and in the list of the blocks that are out.
is_out-out :
    (p : MemoryPool) (i : ℕ)
    → IsValid p
    → i < p.block_count
    → is_out p.bitmap i ≡ get_or (out p) i false
is_out-out p i v h =
    is_out-flat p.bitmap i v.full (omega (arith, v.many))
    ∙ sym (get_or-take p.block_count i (flat p.bitmap) false h)

-- No address of a block is refused for its place.
module _ (p : MemoryPool) (v : IsValid p) (block i : ℕ) (i_in : i < p.block_count)
    (e : block ≡ address p i) where
  address-ge : p.buffer ≤ block
  address-ge = omega arith

  address-lt : block - p.buffer < p.block_count * p.block_size
  address-lt =
      let next : i * p.block_size + p.block_size ≤ p.block_count * p.block_size = grind arith in
      omega (arith, v.sized)

  address-offset : block - p.buffer ≡ i * p.block_size
  address-offset = omega arith

-- What follows the tests of the pointer in `give_back`.
give_back-within :
    (p : MemoryPool) (block : ℕ)
    → IsValid p
    → block < size_mod
    → p.buffer ≤ block
    → block - p.buffer < p.block_count * p.block_size
    → give_back p block ≡ (
        if not ((block - p.buffer) % p.block_size == 0)
        then (invalid_argument, p)
        else if not (is_out p.bitmap ((block - p.buffer) / p.block_size))
        then (invalid_argument, p)
        else (ok, returned p ((block - p.buffer) / p.block_size)))
unfolding give_back
give_back-within p block v h ge lt =
    let o : sub_size block p.buffer ≡ block - p.buffer = omega arith in
    let total : p.block_count * p.block_size % size_mod ≡ p.block_count * p.block_size =
      omega (arith, v.room) in
    rw (
      le→ltb block p.buffer ge,
      o,
      total,
      lt→leb_false (p.block_count * p.block_size) (block - p.buffer) lt,
    )

give_back-outside :
    (p : MemoryPool) (block : ℕ)
    → IsValid p
    → block < size_mod
    → (block < p.buffer) ⊎ (p.block_count * p.block_size ≤ block - p.buffer)
    → give_back p block ≡ (invalid_argument, p)
unfolding give_back
give_back-outside p block v h (inl lt) = rw (lt→ltb block p.buffer lt)
give_back-outside p block v h (inr ge) = elim (lt-or-ge block p.buffer) [
  | inl lt ↦ rw (lt→ltb block p.buffer lt)
  | inr from ↦
      let o : sub_size block p.buffer ≡ block - p.buffer = omega arith in
      let total : p.block_count * p.block_size % size_mod ≡ p.block_count * p.block_size =
        omega (arith, v.room) in
      rw (
        le→ltb block p.buffer from,
        o,
        total,
        le→leb (p.block_count * p.block_size) (block - p.buffer) ge,
      )
]

-- `deallocate` on a valid pool takes back exactly the addresses of blocks that are out, frees that
-- block alone and keeps the pool valid; a pointer outside the storage, one inside a block, and one to
-- a block that is free already are refused and change nothing.
pub give_back_lem :
    (p : MemoryPool) (block : ℕ)
    → IsValid p
    → block < size_mod
    → let (r, p') = give_back p block in Freed p block r p'
give_back_lem p block v h = elim (lt-or-ge block p.buffer) [
  | inl before ↦
      rw (give_back-outside p block v h (inl before))
        (inr (refl, refl, λ i i_in e. absurd (omega (arith, address-ge p v block i i_in e))))
  | inr from ↦ elim (lt-or-ge (block - p.buffer) (p.block_count * p.block_size)) [
    | inr behind ↦
        rw (give_back-outside p block v h (inr behind))
          (inr (refl, refl, λ i i_in e. absurd (omega (arith, address-lt p v block i i_in e))))
    | inl within ↦
        let o = block - p.buffer in
        elim (Bool-cases (o % p.block_size == 0)) [
          | inr inside ↦
              rw (give_back-within p block v h from within, inside)
                (inr (
                  refl,
                  refl,
                  λ i i_in e. absurd (
                      ==→ne (o % p.block_size) 0 inside (
                        ap (λ k. k % p.block_size) (address-offset p v block i i_in e)
                        ∙ (block_of p.block_size i v.sized).0)),
                ))
          | inl start ↦
              let at = block_at p.block_size p.block_count o v.sized within (==→eq _ _ start) in
              let idx = o / p.block_size in
              elim (Bool-cases (is_out p.bitmap idx)) [
                | inr free ↦
                    rw (give_back-within p block v h from within, start, free)
                      (inr (
                        refl,
                        refl,
                        λ i i_in e.
                            let same : idx ≡ i =
                              ap (λ k. k / p.block_size) (address-offset p v block i i_in e)
                              ∙ (block_of p.block_size i v.sized).1 in
                            sym (is_out-out p i v i_in) ∙ ap (is_out p.bitmap) (sym same) ∙ free,
                      ))
                | inl taken_ ↦
                    let is_set = sym (is_out-out p idx v at.0) ∙ taken_ in
                    let done = returned-Freed p idx v at.0 is_set in
                    rw (give_back-within p block v h from within, start, taken_)
                      (inl (idx, at.0, omega (arith, at.1), is_set, refl, done.0, done.1))
              ]
        ]
  ]
]
