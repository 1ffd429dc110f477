-- ===== src/MessageBuffer/Pool.antt =====
-- The creation and destruction of message buffers among the static objects. `d_ok` and `p_ok` are what
-- the backend answers to the two creations of semaphores; a handle is the index of its object's slot.
use micr_osal.Common.{
  ℕ, ◌+◌, ◌-◌, ◌≤◌, ◌<◌, ◌≡◌, ◌≢◌, refl, ◌⊎◌, inl, inr, List, [], Option, none, some, Bool, true,
  false, arith, leb, ◌||◌, not, if◌then◌else◌, length, set, get_or, max_object, Option-cases,
  get_or-set_self,
}
use micr_osal.Error.{Result, ok, invalid_argument, out_of_resources, not_initialized}
use micr_osal.Semaphore.{new_semaphore}
use micr_osal.Slots
use micr_osal.ByteRing
use micr_osal.ByteRing.Laws.{over-IsValid}
use micr_osal.MessageBuffer.{MessageBuffer, k_msg_header_bytes}
use micr_osal.MessageBuffer.Refine.{Holds}

-- emu_mb_pool and emu_mb_used, and how many semaphores the backend has live for them.
pub record Pool : Type 0 where
  pub objects : List MessageBuffer
  pub used : List Bool
  pub semaphores : ℕ

-- What osal_message_buffer_create stores in a slot.
abbrev pub fresh : List ℕ → ℕ → MessageBuffer
fresh buffer capacity = record {
  ring = ByteRing.over buffer capacity;
  data_sem = new_semaphore 0 1;
  space_sem = new_semaphore 0 1;
}

abbrev one_if : Bool → ℕ
one_if b = if b then 1 else 0

unfoldable pub create_in :
    Pool → List ℕ → ℕ → Bool → Bool → Option (ℕ × List Bool) → Result × Option ℕ × Pool
create_in p buffer capacity d_ok p_ok none = (out_of_resources, none, p)
create_in p buffer capacity d_ok p_ok (some (i, used)) =
    let objects = set p.objects i (fresh buffer capacity) in
    let live = p.semaphores + one_if d_ok + one_if p_ok in
    if not d_ok || not p_ok
    then (
      out_of_resources,
      none,
      record {
        objects = objects;
        used = Slots.release used i;
        semaphores = if d_ok then live - 1 else live;
      },
    )
    else (ok, some i, record { objects = objects; used = used; semaphores = live })

-- osal_message_buffer_create: its result, what it writes to the handle, and the objects after.
unfoldable pub create : Pool → Bool → Option (List ℕ) → ℕ → Bool → Bool → Result × Option ℕ × Pool
unfolding create_in
create p handle none capacity d_ok p_ok = (invalid_argument, none, p)
create p handle (some buffer) capacity d_ok p_ok =
    if not handle || leb capacity k_msg_header_bytes
    then (invalid_argument, none, p)
    else create_in p buffer capacity d_ok p_ok (Slots.acquire p.used)

-- osal_message_buffer_destroy: its result, the handle after, and the objects after.
unfoldable pub destroy : Pool → Option ℕ → Result × Option ℕ × Pool
destroy p none = (not_initialized, none, p)
destroy p (some i) =
    (ok, none, record p { used = Slots.release p.used i; semaphores = p.semaphores - 1 - 1 })

-- What a creation that succeeds went through.
create-inversion :
    (p p' : Pool) (buffer : List ℕ) (capacity : ℕ) (handle d_ok p_ok : Bool) (h : Option ℕ)
    → create p handle (some buffer) capacity d_ok p_ok ≡ (ok, h, p')
    → (2 < capacity)
      × (i : ℕ) × (used : List Bool) × (Slots.acquire p.used ≡ some (i, used))
      × (h ≡ some i)
      × (p' ≡ record {
        objects = set p.objects i (fresh buffer capacity);
        used = used;
        semaphores = p.semaphores + 1 + 1;
      })
unfolding create
create-inversion p p' buffer capacity handle d_ok p_ok h e =
    elim (Option-cases (Slots.acquire p.used)) [
      | inl q ↦ ground arith
      | inr ((j, used), q) ↦ (ground arith, j, used, q, ground arith, ground arith)
    ]

fresh-Holds :
    (buffer : List ℕ) (capacity : ℕ)
    → 2 < capacity
    → capacity + 1 ≤ max_object
    → length buffer ≡ capacity + 1
    → Holds (fresh buffer capacity) []
fresh-Holds buffer capacity positive small storage = record {
  ring_ok = over-IsValid buffer capacity (omega arith) small storage;
  short = cc;
  framed = refl;
}

-- A message buffer that holds no message, in a slot that was free, and destroying it undoes its
-- creation.
abbrev pub Made : Pool → Option ℕ → Pool → Type 0
Made p h p' =
    (i : ℕ) × (h ≡ some i)
    × (get_or p.used i true ≡ false)
    × ((d : MessageBuffer) → Holds (get_or p'.objects i d) [])
    × ((destroy p' (some i)).2 ≡ record p { objects = p'.objects })

-- A creation that succeeds, over storage of one byte more than the capacity, hands out a slot that was
-- free with a buffer that holds no message, and destroying it gives back the slot and both semaphores.
pub create_empty :
    (p p' : Pool) (buffer : List ℕ) (capacity : ℕ) (handle d_ok p_ok : Bool) (h : Option ℕ)
    → length p.objects ≡ length p.used
    → capacity + 1 ≤ max_object
    → length buffer ≡ capacity + 1
    → create p handle (some buffer) capacity d_ok p_ok ≡ (ok, h, p')
    → Made p h p'
unfolding destroy
create_empty p p' buffer capacity handle d_ok p_ok h same small storage e =
    let (positive, i, used, found, there, after) =
      create-inversion p p' buffer capacity handle d_ok p_ok h e in
    let slot = Slots.acquire-some p.used {used' = used} found in
    let new = fresh buffer capacity in
    let n : p.semaphores + 1 + 1 - 1 - 1 ≡ p.semaphores = omega arith in
    rw after (
      i,
      there,
      slot.0,
      λ d.
          rw (get_or-set_self p.objects i new d (omega (arith, slot.2)))
            (fresh-Holds buffer capacity positive small storage),
      cc,
    )

-- A creation that fails hands out nothing and leaves every slot's flag as it was; the number of live
-- semaphores too, unless only the second one could be created, and that one may stay live.
pub create_leftover :
    (p p' : Pool) (buffer : Option (List ℕ)) (capacity : ℕ) (handle d_ok p_ok : Bool) (r : Result)
    (h : Option ℕ)
    → create p handle buffer capacity d_ok p_ok ≡ (r, h, p')
    → r ≢ ok
    → (h ≡ none)
      × (p'.used ≡ p.used)
      × ((p'.semaphores ≡ p.semaphores)
          ⊎ ((d_ok ≡ false) × (p_ok ≡ true) × (p'.semaphores ≡ p.semaphores + 1)))
unfolding create
create_leftover p p' buffer capacity handle d_ok p_ok r h e bad =
    elim (Option-cases (Slots.acquire p.used)) [
      | inl q ↦ (ground arith, ground arith, inl (ground arith))
      | inr ((j, used), q) ↦
          let back = (Slots.acquire-some p.used {used' = used} q).3 in
          (ground arith, ground arith, ground arith)
    ]

-- When the first semaphore cannot be created and the second one can, with a free slot and a capacity
-- above that of a header, the creation fails and leaves the second semaphore live.
pub create_leaks_space_sem :
    (p : Pool) (buffer : List ℕ) (capacity : ℕ)
    → 2 < capacity
    → Slots.acquire p.used ≢ none
    → let (r, h, p') = create p true (some buffer) capacity false true in
      (r ≡ out_of_resources) × (h ≡ none) × (p'.semaphores ≡ p.semaphores + 1)
unfolding create
create_leaks_space_sem p buffer capacity positive free =
    elim (Option-cases (Slots.acquire p.used)) [
      | inl q ↦ absurd (free q)
      | inr ((i, used), q) ↦ ground arith
    ]
