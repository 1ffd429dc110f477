-- ===== src/Creation.antt =====
-- What the create and destroy functions of src/common/emulated_work_queue.inl, emulated_barrier.inl,
-- emulated_condvar.inl and emulated_event_flags.inl share: a slot of a static pool, and kernel objects
-- that are created one after another and destroyed again when one cannot be.
use micr_osal.Common.{
  ℕ, ◌+◌, ◌-◌, ◌≡◌, ◌≢◌, refl, ap, ◌∙◌, ◌⊎◌, inl, inr, List, [], ◌∷◌, Option, none, some, Bool,
  true, false, arith, length, set, get_or, get_or-set_self, if◌then◌else◌, Option-cases, Bool-cases,
}
use micr_osal.Error.{Result, ok, out_of_resources}
use micr_osal.Slots

-- A static pool: its objects, their flags, and how many kernel objects the backend has live for them.
pub record Objects (S : Type 0) : Type 0 where
  pub objects : List S
  pub used : List Bool
  pub live : ℕ

-- Whether all the kernel objects could be created, given the backend's answers in order, and how many
-- are live then: where one cannot be, those before it are destroyed.
unfoldable pub create_all : List Bool → ℕ → Bool × ℕ
create_all [] live = (true, live)
create_all (answer ∷ answers) live =
    let (all, live') = create_all answers (live + 1) in
    if answer then (all, if all then live' else live' - 1) else (false, live)

-- A creation past the tests of its arguments. `reject` is what it answers when it finds out only with
-- its slot that it must refuse.
module _ {S : Type 0} where
  unfoldable pub create_in :
      Objects S
      → Option Result
      → (S → S)
      → S
      → List Bool
      → Option (ℕ × List Bool)
      → Result × Option ℕ × Objects S
  create_in p reject prepare d answers none = (out_of_resources, none, p)
  create_in p reject prepare d answers (some (i, used)) =
      let objects = set p.objects i (prepare (get_or p.objects i d)) in
      let (all, live) = create_all answers p.live in
      elim reject [
        | some r ↦ (r, none, record p { used = Slots.release used i })
        | none ↦
            if all then (ok, some i, record { objects = objects; used = used; live = live }) else (
              out_of_resources,
              none,
              record { objects = objects; used = Slots.release used i; live = live },
            )
      ]

  -- A destruction of an object that has `n` kernel objects; `answer` is that for a null handle.
  unfoldable pub destroy : Objects S → Result → ℕ → Option ℕ → Result × Option ℕ × Objects S
  destroy p answer n none = (answer, none, p)
  destroy p answer n (some i) =
      (ok, none, record p { used = Slots.release p.used i; live = p.live - n })

create_all-live :
    (answers : List Bool) (live : ℕ)
    → let (all, live') = create_all answers live in
      live' ≡ (if all then live + length answers else live)
unfolding create_all
create_all-live [] live = omega arith
create_all-live (true ∷ answers) live = ground (arith, create_all-live answers (live + 1))
create_all-live (false ∷ answers) live = refl

-- A creation handed out a slot that was free, with the prepared object in it, and destroying it undoes
-- the creation.
abbrev pub Made : {S : Type 0} → S → (S → Type 0) → Objects S → ℕ → Option ℕ → Objects S → Type 0
Made {S} d Good p n h p' =
    (i : ℕ) × (h ≡ some i)
    × (get_or p.used i true ≡ false)
    × Good (get_or p'.objects i d)
    × ((destroy p' ok n (some i)).2 ≡ record p { objects = p'.objects })

-- It failed, handed out nothing, and left the flags and the kernel objects as they were.
abbrev pub Refused : {S : Type 0} → Objects S → Result → Option ℕ → Objects S → Type 0
Refused {S} p r h p' = (r ≢ ok) × (h ≡ none) × (p'.used ≡ p.used) × (p'.live ≡ p.live)

abbrev pub Outcome :
    {S : Type 0} → S → (S → Type 0) → Objects S → ℕ → Result × Option ℕ × Objects S → Type 0
Outcome d Good p n (r, h, p') = ((r ≡ ok) × Made d Good p n h p') ⊎ Refused p r h p'

module _ {S : Type 0} where
  made :
      (p : Objects S) (d new : S) (n : ℕ) (Good : S → Type 0) (i : ℕ) (used : List Bool)
      → length p.objects ≡ length p.used
      → Good new
      → Slots.acquire p.used ≡ some (i, used)
      → Made d Good p n
          (some i)
          (record { objects = set p.objects i new; used = used; live = p.live + n })
  unfolding destroy
  made p d new n Good i used same good e =
      let slot = Slots.acquire-some p.used {used' = used} e in
      let back : p.live + n - n ≡ p.live = omega arith in
      (
        i,
        refl,
        slot.0,
        rw (get_or-set_self p.objects i new d (omega (arith, slot.2))) good,
        rw (slot.3, back) refl,
      )

  none-Refused : (p : Objects S) → Refused p out_of_resources none p
  none-Refused p = (λ e. cc, refl, refl, refl)

  pub create_in-Outcome :
      (p : Objects S) (reject : Option Result) (prepare : S → S) (d : S) (answers : List Bool)
      (Good : S → Type 0)
      → length p.objects ≡ length p.used
      → reject ≢ some ok
      → (reject ≡ none → (o : S) → Good (prepare o))
      → Outcome d Good p
          (length answers)
          (create_in p reject prepare d answers (Slots.acquire p.used))
  unfolding create_in
  create_in-Outcome p reject prepare d answers Good same bad good =
      elim (Option-cases (Slots.acquire p.used)) [
        | inl q ↦ rw (q, create_in) (inr (none-Refused p))
        | inr ((i, used), q) ↦
            let slot = Slots.acquire-some p.used {used' = used} q in
            let new = prepare (get_or p.objects i d) in
            elim (Option-cases reject) [
              | inr (r, w) ↦
                  let ne : r ≢ ok = λ z. bad (w ∙ ap some z) in
                  rw (q, w, create_in) (inr (ne, refl, slot.3, refl))
              | inl w ↦ elim (Bool-cases (create_all answers p.live).0) [
                | inl b ↦
                    let all : (create_all answers p.live).1 ≡ p.live + length answers =
                      create_all-live answers p.live
                      ∙ ap (λ x. if x then p.live + length answers else p.live) b in
                    rw (q, w, b, all, create_in)
                      (inl (refl, made p d new (length answers) Good i used same (good w _) q))
                | inr b ↦
                    let kept : (create_all answers p.live).1 ≡ p.live =
                      create_all-live answers p.live
                      ∙ ap (λ x. if x then p.live + length answers else p.live) b in
                    rw (q, w, b, kept, create_in) (inr (λ z. cc, refl, slot.3, refl))
              ]
            ]
      ]
