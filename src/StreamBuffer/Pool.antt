-- ===== src/StreamBuffer/Pool.antt =====
-- The creation and destruction of stream buffers in their static pool. `d_ok` and `p_ok` are what the
-- backend answers to the two creations of semaphores; a handle is the index of its object's slot.
use micr_osal.Common.{subst}
use micr_osal.Common.{
  ℕ, ◌+◌, ◌-◌, ◌≤◌, ◌<◌, ◌≡◌, ◌≢◌, refl, sym, ap, ◌∙◌, inl, inr, List, [], Option, none, some, Bool,
  true, false, arith, ◌==◌, ◌||◌, not, if◌then◌else◌, length, set, get_or, max_object, Option-cases,
  get_or-set_self,
}
use micr_osal.Error.{Result, ok, invalid_argument, out_of_resources, not_initialized}
use micr_osal.Semaphore.{new_semaphore}
use micr_osal.Slots
use micr_osal.ByteRing
use micr_osal.ByteRing.Laws.{over-IsValid}
use micr_osal.StreamBuffer.{StreamBuffer}
use micr_osal.StreamBuffer.Refine.{IsValid, held}

-- emu_sb_pool and emu_sb_used, and how many semaphores the backend has live for them.
pub record Pool : Type 0 where
  pub objects : List StreamBuffer
  pub used : List Bool
  pub semaphores : ℕ

abbrev one_if : Bool → ℕ
one_if b = if b then 1 else 0

-- What osal_stream_buffer_create stores in a slot.
abbrev pub fresh : List ℕ → ℕ → ℕ → StreamBuffer
fresh buffer capacity trigger_level = record {
  ring = ByteRing.over buffer capacity;
  trigger = if trigger_level == 0 then 1 else trigger_level;
  data_sem = new_semaphore 0 1;
  space_sem = new_semaphore 0 1;
}

unfoldable pub create_in :
    Pool → List ℕ → ℕ → ℕ → Bool → Bool → Option (ℕ × List Bool) → Result × Option ℕ × Pool
create_in p buffer capacity trigger_level d_ok p_ok none = (out_of_resources, none, p)
create_in p buffer capacity trigger_level d_ok p_ok (some (i, used)) =
    let objects = set p.objects i (fresh buffer capacity trigger_level) in
    let live = p.semaphores + one_if d_ok + one_if p_ok in
    if not d_ok || not p_ok
    then (
      out_of_resources,
      none,
      record {
        objects = objects;
        used = Slots.release used i;
        semaphores = if d_ok then live - 1 else live;
      },
    )
    else (ok, some i, record { objects = objects; used = used; semaphores = live })

-- osal_stream_buffer_create: its result, what it writes to the handle, and the pool after.
unfoldable pub create :
    Pool → Bool → Option (List ℕ) → ℕ → ℕ → Bool → Bool → Result × Option ℕ × Pool
unfolding create_in
create p handle none capacity trigger_level d_ok p_ok = (invalid_argument, none, p)
create p handle (some buffer) capacity trigger_level d_ok p_ok =
    if not handle || capacity == 0
    then (invalid_argument, none, p)
    else create_in p buffer capacity trigger_level d_ok p_ok (Slots.acquire p.used)

-- osal_stream_buffer_destroy: its result, the handle after, and the pool after.
unfoldable pub destroy : Pool → Option ℕ → Result × Option ℕ × Pool
destroy p none = (not_initialized, none, p)
destroy p (some i) =
    (ok, none, record p { used = Slots.release p.used i; semaphores = p.semaphores - 1 - 1 })

fresh-IsValid :
    (buffer : List ℕ) (capacity trigger_level : ℕ)
    → 0 < capacity
    → capacity + 1 ≤ max_object
    → length buffer ≡ capacity + 1
    → IsValid (fresh buffer capacity trigger_level)
fresh-IsValid buffer capacity trigger_level positive small storage = record {
  ring_ok = over-IsValid buffer capacity positive small storage;
  trigger_positive = ground arith;
  data_binary = refl;
  data_bound = omega arith;
  space_binary = refl;
  space_bound = omega arith;
}

-- What a creation that succeeds went through.
create-inversion :
    (p p' : Pool) (buffer : List ℕ) (capacity trigger_level : ℕ) (handle d_ok p_ok : Bool) (i : ℕ)
    → create p handle (some buffer) capacity trigger_level d_ok p_ok ≡ (ok, some i, p')
    → (capacity ≢ 0)
      × (used : List Bool) × (Slots.acquire p.used ≡ some (i, used))
      × (p'.used ≡ used)
      × (p'.objects ≡ set p.objects i (fresh buffer capacity trigger_level))
      × (p'.semaphores ≡ p.semaphores + 1 + 1)
unfolding create
create-inversion p p' buffer capacity trigger_level handle d_ok p_ok i e =
    elim (Option-cases (Slots.acquire p.used)) [
      | inl q ↦ ground arith
      | inr ((j, used), q) ↦
          (ground arith, used, ground arith, ground arith, ground arith, ground arith)
    ]

-- A creation that succeeds hands out a slot that was free, with a sound and empty buffer in it, and
-- destroying the handle gives the slot and both semaphores back.
pub create_ok :
    (p p' : Pool) (buffer : List ℕ) (capacity trigger_level : ℕ) (handle d_ok p_ok : Bool) (i : ℕ)
    → length p.objects ≡ length p.used
    → capacity + 1 ≤ max_object
    → length buffer ≡ capacity + 1
    → create p handle (some buffer) capacity trigger_level d_ok p_ok ≡ (ok, some i, p')
    → (get_or p.used i true ≡ false)
      × (p'.used ≡ set p.used i true)
      × ((d : StreamBuffer) → IsValid (get_or p'.objects i d) × (held (get_or p'.objects i d) ≡ []))
      × ((destroy p' (some i)).2.used ≡ p.used)
      × ((destroy p' (some i)).2.semaphores ≡ p.semaphores)
unfolding create destroy
create_ok p p' buffer capacity trigger_level handle d_ok p_ok i same small storage e =
    let inv = create-inversion p p' buffer capacity trigger_level handle d_ok p_ok i e in
    let slot = Slots.acquire-some p.used inv.2 in
    let sound = fresh-IsValid buffer capacity trigger_level (omega (arith, inv.0)) small storage in
    let there : (d : StreamBuffer) → get_or p'.objects i d ≡ fresh buffer capacity trigger_level =
      λ d. ap (λ l. get_or l i d) inv.4 ∙ get_or-set_self p.objects i _ d (omega (arith, slot.2)) in
    (
      slot.0,
      inv.3 ∙ slot.1,
      λ d. (subst IsValid (sym (there d)) sound, ap held (there d)),
      ap (λ u. Slots.release u i) inv.3 ∙ slot.3,
      omega (arith, inv.5),
    )

-- A creation that fails hands out nothing and leaves every slot's flag as it was.
pub create_failed :
    (p p' : Pool) (buffer : Option (List ℕ)) (capacity trigger_level : ℕ) (handle d_ok p_ok : Bool)
    (r : Result) (h : Option ℕ)
    → create p handle buffer capacity trigger_level d_ok p_ok ≡ (r, h, p')
    → r ≢ ok
    → (h ≡ none) × (p'.used ≡ p.used)
unfolding create
create_failed p p' buffer capacity trigger_level handle d_ok p_ok r h e bad =
    elim (Option-cases (Slots.acquire p.used)) [
      | inl q ↦ ground arith
      | inr ((j, used), q) ↦ let back = (Slots.acquire-some p.used q).3 in ground arith
    ]

-- When the first semaphore cannot be created and the second one can, on a pool with a free slot, the
-- creation fails and leaves the second semaphore live: it is never destroyed.
pub create_leaks_semaphore :
    (p : Pool) (buffer : List ℕ) (capacity trigger_level : ℕ)
    → capacity ≢ 0
    → Slots.acquire p.used ≢ none
    → let (r, h, p') = create p true (some buffer) capacity trigger_level false true in
      (r ≡ out_of_resources) × (h ≡ none) × (p'.semaphores ≡ p.semaphores + 1)
unfolding create
create_leaks_semaphore p buffer capacity trigger_level positive free =
    elim (Option-cases (Slots.acquire p.used)) [
      | inl q ↦ absurd (free q)
      | inr ((i, used), q) ↦ ground arith
    ]
