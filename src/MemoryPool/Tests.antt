-- ===== src/MemoryPool/Tests.antt =====
-- A pool of three blocks of sixteen bytes at work, and the theorems at concrete inputs.
use micr_osal.Common.{◌≡◌, refl, [], ◌∷◌, none, some, true, false, arith, replicate}
use micr_osal.Error.{ok, out_of_resources, invalid_argument}
use micr_osal.Semaphore.{new_semaphore, try_take}
use micr_osal.Slots
use micr_osal.Slots.{taken}
use micr_osal.MemoryPool.{
  MemoryPool, alloc_words, bitmap_alloc, claim, allocate, give_back, word_mask, first_free_bit,
}
use micr_osal.MemoryPool.Inv.{IsValid}
use micr_osal.MemoryPool.Allocate.{Allocated, allocate_lem}
use micr_osal.MemoryPool.Deallocate.{Freed, give_back_lem}
use micr_osal.MemoryPool.Pool.{Pool, fresh, create, create_in}

-- Three blocks of sixteen bytes, the first of them out.
abbrev three : MemoryPool
three = record {
  buffer = 4096;
  block_size = 16;
  block_count = 3;
  bitmap = (true ∷ replicate 31 false) ∷ [];
  available = 2;
  sem = new_semaphore 2 3;
}

three-IsValid : IsValid three
three-IsValid = record {
  sized = omega arith;
  peopled = omega arith;
  few = omega arith;
  room = omega arith;
  full = (refl, cc);
  many = omega arith;
  exact = omega arith;
  counted = refl;
  sem_count = refl;
  sem_max = refl;
}

allocate_lem_example : let (block, h) = allocate (some three) in Allocated three block h
allocate_lem_example = allocate_lem three three-IsValid

give_back_lem_example : let (r, p') = give_back three 4096 in Freed three 4096 r p'
give_back_lem_example = give_back_lem three 4096 three-IsValid (omega arith)

allocate-three : (allocate (some three)).0 ≡ some 4112
unfolding allocate claim bitmap_alloc alloc_words word_mask first_free_bit try_take
allocate-three = refl

give_back-three : (give_back three 4100).0 ≡ invalid_argument
unfolding give_back
give_back-three = refl

-- Two slots, the first of them taken.
abbrev slots : Pool
slots = record {
  objects = three ∷ three ∷ [];
  used = true ∷ false ∷ [];
  mutexes = 1;
  semaphores = 1;
}

abbrev created : Pool
created = record {
  objects = three ∷ fresh 8192 8 40 ∷ [];
  used = true ∷ true ∷ [];
  mutexes = 2;
  semaphores = 2;
}

create-slots : create slots true (some 8192) 330 8 40 true true ≡ (ok, some 1, created)
unfolding create create_in Slots.acquire
create-slots = refl

-- The second slot again, whose semaphore cannot be created.
abbrev failed : Pool
failed = record slots { objects = three ∷ fresh 8192 8 40 ∷ [] }

create-failed : create slots true (some 8192) 330 8 40 true false ≡ (out_of_resources, none, failed)
unfolding create create_in Slots.acquire Slots.release
create-failed = refl
