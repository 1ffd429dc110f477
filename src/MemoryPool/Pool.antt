-- ===== src/MemoryPool/Pool.antt =====
-- The creation and destruction of memory pools among the static objects. `m_ok` and `s_ok` are what
-- the backend answers to the creations of the mutex and of the semaphore; a handle is the index of
-- its object's slot.
use micr_osal.Common.{
  ℕ, zero, suc, ◌+◌, ◌-◌, ◌*◌, ◌/◌, ◌≤◌, ◌<◌, ◌≡◌, ◌≢◌, refl, ap, ◌∙◌, inl, inr, List, ◌++◌, Option,
  none, some, Bool, true, false, arith, ◌==◌, ◌||◌, not, if◌then◌else◌, length, set, get_or, take,
  replicate, ltb, size_mod, max_object, add_size, Option-cases, get_or-set_self, length-replicate,
}
use native.Mathlib.Nat.{div-mul-le_self}
use micr_osal.Error.{Result, ok, invalid_argument, out_of_resources}
use micr_osal.Semaphore.{new_semaphore}
use micr_osal.Slots
use micr_osal.Slots.{taken}
use micr_osal.MemoryPool.{MemoryPool}
use micr_osal.MemoryPool.Words.{flat, Full}
use micr_osal.MemoryPool.Inv.{IsValid, out}

-- emu_mpool_pool and emu_mpool_used, and how many mutexes and semaphores the backend has live for
-- them.
pub record Pool : Type 0 where
  pub objects : List MemoryPool
  pub used : List Bool
  pub mutexes : ℕ
  pub semaphores : ℕ

-- bitmap_words of a creation
abbrev pub bitmap_words : ℕ → ℕ
bitmap_words block_count = add_size block_count 31 / 32

-- What osal_memory_pool_create stores in a slot.
abbrev pub fresh : ℕ → ℕ → ℕ → MemoryPool
fresh buffer block_size block_count = record {
  buffer = buffer;
  block_size = block_size;
  block_count = block_count;
  bitmap = replicate (bitmap_words block_count) (replicate 32 false);
  available = block_count;
  sem = new_semaphore block_count block_count;
}

-- What a creation leaves of a slot's object where it stops before it clears the bitmap.
abbrev pub uncleared : MemoryPool → ℕ → ℕ → ℕ → MemoryPool
uncleared o buffer block_size block_count = record o {
  buffer = buffer;
  block_size = block_size;
  block_count = block_count;
  available = block_count;
}

unfoldable pub create_in :
    Pool → ℕ → ℕ → ℕ → Bool → Bool → Option (ℕ × List Bool) → Result × Option ℕ × Pool
create_in p buffer block_size block_count m_ok s_ok none = (out_of_resources, none, p)
create_in p buffer block_size block_count m_ok s_ok (some (i, used)) =
    let new = fresh buffer block_size block_count in
    let old = uncleared (get_or p.objects i new) buffer block_size block_count in
    let back = record p { objects = set p.objects i new; used = Slots.release used i } in
    if ltb 8 (bitmap_words block_count)
    then (invalid_argument, none, record back { objects = set p.objects i old })
    else if not m_ok
    then (out_of_resources, none, back)
    else if not s_ok
    then (out_of_resources, none, record back { mutexes = p.mutexes + 1 - 1 })
    else (
      ok,
      some i,
      record {
        objects = set p.objects i new;
        used = used;
        mutexes = p.mutexes + 1;
        semaphores = p.semaphores + 1;
      },
    )

-- osal_memory_pool_create: its result, what it writes to the handle, and the objects after.
unfoldable pub create : Pool → Bool → Option ℕ → ℕ → ℕ → ℕ → Bool → Bool → Result × Option ℕ × Pool
unfolding create_in
create p handle none buf_bytes block_size block_count m_ok s_ok = (invalid_argument, none, p)
create p handle (some buffer) buf_bytes block_size block_count m_ok s_ok =
    if not handle || block_size == 0 || block_count == 0
    then (invalid_argument, none, p)
    else if ltb (buf_bytes / block_size) block_count
    then (invalid_argument, none, p)
    else create_in p buffer block_size block_count m_ok s_ok (Slots.acquire p.used)

-- osal_memory_pool_destroy: its result, the handle after, and the objects after.
unfoldable pub destroy : Pool → Option ℕ → Result × Option ℕ × Pool
destroy p none = (ok, none, p)
destroy p (some i) = (
  ok,
  none,
  record p {
    used = Slots.release p.used i;
    mutexes = p.mutexes - 1;
    semaphores = p.semaphores - 1;
  },
)

cleared-Full : (n : ℕ) → Full (replicate n (replicate 32 false))
cleared-Full zero = cc
cleared-Full (suc n) = (refl, cleared-Full n)

taken-clear : (n k : ℕ) → taken (take n (replicate k false)) ≡ 0
taken-clear zero k = refl
taken-clear (suc n) zero = refl
taken-clear (suc n) (suc k) = taken-clear n k

flat-clear :
    (n : ℕ) → let l = flat (replicate n (replicate 32 false)) in l ≡ replicate (length l) false
flat-clear zero = refl
flat-clear (suc n) = ap (λ l. replicate 32 false ++ l) (flat-clear n)

-- What the guards of a creation leave: the blocks fit in the storage and their bits in the bitmap.
module _ (buffer buf_bytes block_size block_count : ℕ) (sized : block_size ≢ 0)
    (peopled : block_count ≢ 0) (fits : block_count ≤ buf_bytes / block_size)
    (small : buf_bytes ≤ max_object) (storage : buffer + buf_bytes < size_mod) where
  within : block_count * block_size ≤ buf_bytes
  within =
      let below = div-mul-le_self buf_bytes block_size in
      let more : block_count * block_size ≤ buf_bytes / block_size * block_size = grind arith in
      omega arith

  count-le : block_count ≤ buf_bytes
  count-le =
      let more : block_count * 1 ≤ block_count * block_size = grind arith in omega (arith, within)

  words_lem : bitmap_words block_count ≡ (block_count + 31) / 32
  words_lem = ap (λ n. n / 32) (omega (arith, count-le))

  fresh-IsValid :
      bitmap_words block_count ≤ 8
      → IsValid (fresh buffer block_size block_count)
        × (taken (out (fresh buffer block_size block_count)) ≡ 0)
  fresh-IsValid few =
      let words = bitmap_words block_count in
      let size = length-replicate words (replicate 32 false) in
      let bits = length (flat (replicate words (replicate 32 false))) in
      let none_out : taken (out (fresh buffer block_size block_count)) ≡ 0 =
        ap (λ l. taken (take block_count l)) (flat-clear words) ∙ taken-clear block_count bits in
      (
        record {
          sized = omega arith;
          peopled = omega arith;
          few = omega (arith, words_lem);
          room = omega (arith, within);
          full = cleared-Full words;
          many = omega (arith, words_lem);
          exact = omega (arith, words_lem);
          counted = omega arith;
          sem_count = refl;
          sem_max = refl;
        },
        none_out,
      )

-- What a creation that succeeds went through.
create-inversion :
    (p p' : Pool) (buffer buf_bytes block_size block_count : ℕ) (handle m_ok s_ok : Bool) (i : ℕ)
    → create p handle (some buffer) buf_bytes block_size block_count m_ok s_ok ≡ (ok, some i, p')
    → (block_size ≢ 0)
      × (block_count ≢ 0)
      × (block_count ≤ buf_bytes / block_size)
      × (bitmap_words block_count ≤ 8)
      × (used : List Bool) × (Slots.acquire p.used ≡ some (i, used))
      × (p' ≡ record {
        objects = set p.objects i (fresh buffer block_size block_count);
        used = used;
        mutexes = p.mutexes + 1;
        semaphores = p.semaphores + 1;
      })
unfolding create
create-inversion p p' buffer buf_bytes block_size block_count handle m_ok s_ok i e =
    elim (Option-cases (Slots.acquire p.used)) [
      | inl q ↦ ground arith
      | inr ((j, used), q) ↦
          (ground arith, ground arith, ground arith, ground arith, used, ground arith, ground arith)
    ]

-- A creation that succeeds, over storage that is an object in memory, hands out a slot that was free,
-- with a valid pool in it that has all its blocks free, and destroying the handle gives back the
-- slot, the mutex and the semaphore.
pub create_serves :
    (p p' : Pool) (buffer buf_bytes block_size block_count : ℕ) (handle m_ok s_ok : Bool) (i : ℕ)
    → length p.objects ≡ length p.used
    → buf_bytes ≤ max_object
    → buffer + buf_bytes < size_mod
    → create p handle (some buffer) buf_bytes block_size block_count m_ok s_ok ≡ (ok, some i, p')
    → (get_or p.used i true ≡ false)
      × (p'.used ≡ set p.used i true)
      × ((d : MemoryPool)
          → let o = get_or p'.objects i d in
            IsValid o × (o.block_count ≡ block_count) × (taken (out o) ≡ 0))
      × ((destroy p' (some i)).2 ≡ record p { objects = p'.objects })
unfolding destroy
create_serves p p' buffer buf_bytes block_size block_count handle m_ok s_ok i same small storage e =
    let inv = create-inversion p p' buffer buf_bytes block_size block_count handle m_ok s_ok i e in
    let slot = Slots.acquire-some p.used inv.5 in
    let sound =
      fresh-IsValid buffer buf_bytes block_size block_count inv.0 inv.1 inv.2 small storage inv.3 in
    let new = fresh buffer block_size block_count in
    let m : p.mutexes + 1 - 1 ≡ p.mutexes = omega arith in
    let n : p.semaphores + 1 - 1 ≡ p.semaphores = omega arith in
    rw (inv.6) (
      slot.0,
      slot.1,
      λ d. rw (get_or-set_self p.objects i new d (omega (arith, slot.2))) (sound.0, refl, sound.1),
      cc,
    )

-- A creation that fails hands out nothing, and leaves every slot's flag and the number of live
-- mutexes and semaphores as they were.
pub create_refused :
    (p p' : Pool) (buffer : Option ℕ) (buf_bytes block_size block_count : ℕ)
    (handle m_ok s_ok : Bool) (r : Result) (h : Option ℕ)
    → create p handle buffer buf_bytes block_size block_count m_ok s_ok ≡ (r, h, p')
    → r ≢ ok
    → (h ≡ none) × (p'.used ≡ p.used) × (p'.mutexes ≡ p.mutexes) × (p'.semaphores ≡ p.semaphores)
unfolding create
create_refused p p' buffer buf_bytes block_size block_count handle m_ok s_ok r h e bad =
    elim (Option-cases (Slots.acquire p.used)) [
      | inl q ↦ ground arith
      | inr ((j, used), q) ↦ let back = (Slots.acquire-some p.used q).3 in ground arith
    ]
