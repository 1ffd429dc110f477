-- ===== src/MemoryPool/Inv.antt =====
-- The invariant of a pool: the count of free blocks, the semaphore and the bitmap agree.
use micr_osal.Common.{
  ℕ, zero, suc, ◌+◌, ◌*◌, ◌≤◌, ◌<◌, ◌≡◌, refl, ap, List, [], ◌∷◌, none, Bool, true, false, arith,
  length, take, get_or, size_mod, length-take,
}
use micr_osal.Slots
use micr_osal.Slots.{taken}
use micr_osal.MemoryPool.{MemoryPool}
use micr_osal.MemoryPool.Words.{flat, Full}
use micr_osal.MemoryPool.Flat.{length-flat}

-- Which blocks are out.
abbrev pub out : MemoryPool → List Bool
out p = take p.block_count (flat p.bitmap)

pub record IsValid (p : MemoryPool) : Type 0 where
  pub sized : 0 < p.block_size
  pub peopled : 0 < p.block_count
  pub few : p.block_count ≤ 256
  pub room : p.buffer + p.block_count * p.block_size < size_mod
  pub full : Full p.bitmap
  pub many : p.block_count ≤ length p.bitmap * 32
  pub exact : length p.bitmap * 32 < p.block_count + 32
  pub counted : p.available + taken (out p) ≡ p.block_count
  pub sem_count : p.sem.count ≡ p.available
  pub sem_max : p.sem.max_count ≡ p.block_count

pub length-out : (p : MemoryPool) → IsValid p → length (out p) ≡ p.block_count
length-out p v =
    omega (arith, length-take p.block_count (flat p.bitmap), length-flat p.bitmap v.full, v.many)

pub taken-le : (used : List Bool) → taken used ≤ length used
taken-le [] = omega arith
taken-le (true ∷ used) = omega (arith, taken-le used)
taken-le (false ∷ used) = omega (arith, taken-le used)

-- Clearing a flag that was set leaves one taken less.
pub taken-release :
    (used : List Bool) (i : ℕ)
    → get_or used i false ≡ true
    → suc (taken (Slots.release used i)) ≡ taken used
unfolding Slots.release
taken-release [] i e = cc
taken-release (true ∷ used) zero e = refl
taken-release (false ∷ used) zero e = cc
taken-release (true ∷ used) (suc i) e = ap suc (taken-release used i e)
taken-release (false ∷ used) (suc i) e = taken-release used i e

-- With a free block the search finds one.
pub acquire_of_free : (used : List Bool) → taken used < length used → Slots.acquire used ≡ none → ⊥
acquire_of_free used h e = omega (arith, Slots.acquire-none used e)
