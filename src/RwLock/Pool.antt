-- ===== src/RwLock/Pool.antt =====
-- The creation and destruction of read-write locks among the static objects. `m_ok` and `c_ok` are
-- what the backend answers to the creations of the mutex and of the condition variable; a handle is
-- the index of its object's slot.
use micr_osal.Common.{
  ℕ, ◌+◌, ◌-◌, ◌≡◌, ◌≢◌, ap, ◌∙◌, ◌⊎◌, inl, inr, List, Option, none, some, Bool, true, false, arith,
  not, if◌then◌else◌, length, set, get_or, Option-cases, get_or-set_self,
}
use micr_osal.Error.{ok_or_not, Result, ok, invalid_argument, out_of_resources}
use micr_osal.Slots
use micr_osal.RwLock.{RwLock, unlocked}

-- emu_rw_pool and emu_rw_used, and how many mutexes and condition variables the backend has live for
-- them.
pub record Pool : Type 0 where
  pub objects : List RwLock
  pub used : List Bool
  pub mutexes : ℕ
  pub condvars : ℕ

unfoldable pub create_in : Pool → Bool → Bool → Option (ℕ × List Bool) → Result × Option ℕ × Pool
create_in p m_ok c_ok none = (out_of_resources, none, p)
create_in p m_ok c_ok (some (i, used)) =
    let objects = set p.objects i unlocked in
    let back = record p { objects = objects; used = Slots.release used i } in
    if not m_ok
    then (out_of_resources, none, back)
    else if not c_ok
    then (out_of_resources, none, record back { mutexes = p.mutexes + 1 - 1 })
    else (
      ok,
      some i,
      record { objects = objects; used = used; mutexes = p.mutexes + 1; condvars = p.condvars + 1 },
    )

-- osal_rwlock_create: its result, what it writes to the handle, and the objects after.
unfoldable pub create : Pool → Bool → Bool → Bool → Result × Option ℕ × Pool
unfolding create_in
create p handle m_ok c_ok =
    if not handle then (invalid_argument, none, p) else create_in p m_ok c_ok (Slots.acquire p.used)

-- osal_rwlock_destroy: its result, the handle after, and the objects after.
unfoldable pub destroy : Pool → Option ℕ → Result × Option ℕ × Pool
destroy p none = (ok, none, p)
destroy p (some i) = (
  ok,
  none,
  record p { used = Slots.release p.used i; mutexes = p.mutexes - 1; condvars = p.condvars - 1 },
)

-- What a creation that succeeds went through.
create-inversion :
    (p p' : Pool) (handle m_ok c_ok : Bool) (h : Option ℕ)
    → create p handle m_ok c_ok ≡ (ok, h, p')
    → (i : ℕ) × (used : List Bool) × (Slots.acquire p.used ≡ some (i, used))
      × (h ≡ some i)
      × (p' ≡ record {
        objects = set p.objects i unlocked;
        used = used;
        mutexes = p.mutexes + 1;
        condvars = p.condvars + 1;
      })
unfolding create
create-inversion p p' handle m_ok c_ok h e = elim (Option-cases (Slots.acquire p.used)) [
  | inl q ↦ ground arith
  | inr ((j, used), q) ↦ (j, used, q, ground arith, ground arith)
]

-- A slot that was free holds an unlocked lock, and destroying it undoes the creation.
abbrev pub Made : Pool → Option ℕ → Pool → Type 0
Made p h p' =
    (i : ℕ) × (h ≡ some i)
    × (get_or p.used i true ≡ false)
    × ((d : RwLock) → get_or p'.objects i d ≡ unlocked)
    × ((destroy p' (some i)).2 ≡ record p { objects = p'.objects })

create-Made :
    (p p' : Pool) (handle m_ok c_ok : Bool) (h : Option ℕ)
    → length p.objects ≡ length p.used
    → create p handle m_ok c_ok ≡ (ok, h, p')
    → Made p h p'
unfolding destroy
create-Made p p' handle m_ok c_ok h same e =
    let (i, used, found, there, after) = create-inversion p p' handle m_ok c_ok h e in
    let slot = Slots.acquire-some p.used {used' = used} found in
    let m : p.mutexes + 1 - 1 ≡ p.mutexes = omega arith in
    let n : p.condvars + 1 - 1 ≡ p.condvars = omega arith in
    rw after
      (i, there, slot.0, λ d. get_or-set_self p.objects i unlocked d (omega (arith, slot.2)), cc)

create-failed :
    (p p' : Pool) (handle m_ok c_ok : Bool) (r : Result) (h : Option ℕ)
    → create p handle m_ok c_ok ≡ (r, h, p')
    → r ≢ ok
    → (h ≡ none) × (p'.used ≡ p.used) × (p'.mutexes ≡ p.mutexes) × (p'.condvars ≡ p.condvars)
unfolding create
create-failed p p' handle m_ok c_ok r h e bad = elim (Option-cases (Slots.acquire p.used)) [
  | inl q ↦ ground arith
  | inr ((j, used), q) ↦ let back = (Slots.acquire-some p.used {used' = used} q).3 in ground arith
]

-- A creation that succeeds hands out a slot that was free with an unlocked lock in it, and destroying
-- it gives back the slot, the mutex and the condition variable; one that fails hands out nothing, and
-- leaves every slot's flag and the live mutexes and condition variables as they were.
pub create_or_nothing :
    (p p' : Pool) (handle m_ok c_ok : Bool) (r : Result) (h : Option ℕ)
    → length p.objects ≡ length p.used
    → create p handle m_ok c_ok ≡ (r, h, p')
    → ((r ≡ ok) × Made p h p')
      ⊎ ((r ≢ ok)
          × (h ≡ none)
          × (p'.used ≡ p.used)
          × (p'.mutexes ≡ p.mutexes)
          × (p'.condvars ≡ p.condvars))
create_or_nothing p p' handle m_ok c_ok r h same e = elim (ok_or_not r) [
  | inl good ↦ inl (good, create-Made p p' handle m_ok c_ok h same (e ∙ ap (λ x. (x, h, p')) good))
  | inr bad ↦ let f = create-failed p p' handle m_ok c_ok r h e bad in inr (bad, f.0, f.1, f.2, f.3)
]
