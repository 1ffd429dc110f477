-- ===== src/MemoryPool.antt =====
-- src/common/emulated_memory_pool.inl: fixed-size blocks of a caller's storage, with a bitmap of the
-- blocks that are out and a counting semaphore of those that are free. A std::uint32_t of the bitmap
-- is its 32 bits, the lowest first; addresses are numbers.
pub mod Words
pub mod Flat
pub mod Inv
pub mod Allocate
pub mod Deallocate
pub mod Pool
mod Tests
use micr_osal.Common.{
  ℕ, zero, suc, ◌+◌, ◌-◌, ◌*◌, ◌/◌, ◌%◌, List, [], ◌∷◌, Option, none, some, Bool, true, false, not,
  ◌&&◌, ◌||◌, ltb, leb, ◌==◌, if◌then◌else◌, get_or, set, map, replicate, size_mod, add_size,
  sub_size,
}
use micr_osal.Error.{Result, ok, is_ok, invalid_argument}
use micr_osal.Semaphore.{Semaphore, give, try_take}

abbrev pub Word : Type 0
Word = List Bool

-- ~x
abbrev pub word_not : Word → Word
word_not [] = []
word_not (b ∷ x) = not b ∷ word_not x

-- x & y
abbrev pub word_and : Word → Word → Word
word_and [] y = []
word_and (b ∷ x) [] = []
word_and (b ∷ x) (c ∷ y) = (b && c) ∷ word_and x y

-- x != 0
abbrev pub is_nonzero : Word → Bool
is_nonzero [] = false
is_nonzero (b ∷ x) = b || is_nonzero x

-- (1 << n) - 1 in a word of `width` bits
abbrev pub low_ones : ℕ → ℕ → Word
low_ones zero n = []
low_ones (suc width) zero = false ∷ low_ones width zero
low_ones (suc width) (suc n) = true ∷ low_ones width n

-- emulated_pool_obj, with the words of the bitmap that are in use.
pub record MemoryPool : Type 0 where
  pub buffer : ℕ
  pub block_size : ℕ
  pub block_count : ℕ
  pub bitmap : List Word
  pub available : ℕ
  pub sem : Semaphore

-- pool_bitmap_word_mask
unfoldable pub word_mask : ℕ → ℕ → Word
word_mask block_count word_index =
    let word_base = word_index * 32 in
    let remaining = sub_size block_count word_base in
    if leb 32 remaining then replicate 32 true else low_ones 32 remaining

-- pool_first_free_bit, on a mask that is not 0.
unfoldable pub first_free_bit : Word → ℕ
first_free_bit [] = 0
first_free_bit (true ∷ x) = 0
first_free_bit (false ∷ x) = suc (first_free_bit x)

-- The loop of pool_bitmap_alloc from word `w` on: the index found, and the words after.
unfoldable pub alloc_words : ℕ → ℕ → List Word → Option (ℕ × List Word)
alloc_words block_count w [] = none
alloc_words block_count w (x ∷ xs) =
    let free_mask = word_and (word_not x) (word_mask block_count w) in
    let b = first_free_bit free_mask in
    let rest = alloc_words block_count (suc w) xs in
    if is_nonzero free_mask
    then some (w * 32 + b, set x b true ∷ xs)
    else elim rest [ none ↦ none | some (idx, xs') ↦ some (idx, x ∷ xs') ]

-- pool_bitmap_alloc
unfoldable pub bitmap_alloc : MemoryPool → ℕ × MemoryPool
bitmap_alloc p = elim (alloc_words p.block_count 0 p.bitmap) [
  | none ↦ (p.block_count, p)
  | some (idx, words) ↦ (idx, record p { bitmap = words; available = p.available - 1 })
]

-- Whether the bit of a block is set.
abbrev pub is_out : List Word → ℕ → Bool
is_out bitmap idx = get_or (get_or bitmap (idx / 32) []) (idx % 32) false

-- pool_bitmap_free
unfoldable pub bitmap_free : MemoryPool → ℕ → MemoryPool
bitmap_free p idx =
    let w = idx / 32 in
    let b = idx % 32 in
    record p {
      bitmap = set p.bitmap w (set (get_or p.bitmap w []) b false);
      available = p.available + 1;
    }

-- osal_memory_pool_allocate once the semaphore answered: the address, or `none` for nullptr.
unfoldable pub claim : Result × Semaphore → MemoryPool → Option ℕ × MemoryPool
claim (r, sem) p =
    let (idx, p') = bitmap_alloc (record p { sem = sem }) in
    let block = add_size p.buffer (idx * p.block_size % size_mod) in
    if not (is_ok r)
    then (none, p)
    else if leb p.block_count idx
    then (none, record p' { sem = (give p'.sem).1 })
    else (some block, p')

-- osal_memory_pool_allocate
unfoldable pub allocate : Option MemoryPool → Option ℕ × Option MemoryPool
allocate none = (none, none)
allocate (some p) = let (block, p') = claim (try_take p.sem) p in (block, some p')

-- osal_memory_pool_allocate_timed; `others` is what the other threads do until the semaphore's take
-- comes back, with a token if there is one by then and with a timeout if not.
unfoldable pub allocate_timed :
    Option MemoryPool → (MemoryPool → MemoryPool) → Option ℕ × Option MemoryPool
allocate_timed none others = (none, none)
allocate_timed (some p) others =
    let q = others p in let (block, p') = claim (try_take q.sem) q in (block, some p')

-- osal_memory_pool_deallocate past its test of the pointers.
unfoldable pub give_back : MemoryPool → ℕ → Result × MemoryPool
give_back p block =
    let pool_bytes = p.block_count * p.block_size % size_mod in
    let offset = sub_size block p.buffer in
    let idx = offset / p.block_size in
    if ltb block p.buffer || leb pool_bytes offset
    then (invalid_argument, p)
    else if not (offset % p.block_size == 0)
    then (invalid_argument, p)
    else if not (is_out p.bitmap idx)
    then (invalid_argument, p)
    else let p' = bitmap_free p idx in (ok, record p' { sem = (give p'.sem).1 })

-- osal_memory_pool_deallocate; `none` is a null pointer.
unfoldable pub deallocate : Option MemoryPool → Option ℕ → Result × Option MemoryPool
deallocate none block = (invalid_argument, none)
deallocate (some p) none = (invalid_argument, some p)
deallocate (some p) (some block) = let (r, p') = give_back p block in (r, some p')

-- osal_memory_pool_available
unfoldable pub available : Option MemoryPool → ℕ
available none = 0
available (some p) = p.available
