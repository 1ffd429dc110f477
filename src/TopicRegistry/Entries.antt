-- ===== src/TopicRegistry/Entries.antt =====
-- What the operations on the entries leave as it was.
use micr_osal.Common.{
  ℕ, zero, suc, ◌≡◌, ◌≢◌, refl, ap, inl, inr, List, [], ◌∷◌, some, true, false, get_or, arith,
  Option-cases,
}
use micr_osal.TopicRegistry.{
  Entry, empty_entry, fill, is_of, remove, Found, missing, in_dispatch, selected, next_found,
  select, at,
}

abbrev pub entry : List Entry → ℕ → Entry
entry es i = get_or es i empty_entry

pub fill-entry :
    (es : List Entry) (new : Entry) (j : ℕ) {es' : List Entry}
    → fill es new ≡ some es'
    → (entry es j).topic ≢ 0
    → entry es' j ≡ entry es j
unfolding fill
fill-entry [] new j e n = absurd (cc)
fill-entry (x ∷ es) new zero e n = ground arith
fill-entry (x ∷ es) new (suc j) {es'} e n = elim (Option-cases (fill es new)) [
  | inl q ↦ ground arith
  | inr (u, q) ↦ let ih = fill-entry es new j q in ground arith
]

pub remove-entry :
    (es : List Entry) (id j : ℕ)
    → (entry es j).active ≡ true
    → entry (remove es id).1 j ≡ entry es j
unfolding remove
remove-entry [] id j a = refl
remove-entry (x ∷ es) id zero a = ground arith
remove-entry (x ∷ es) id (suc j) a = let ih = remove-entry es id j a in ground arith

pub at-entry :
    (es : List Entry) (i j : ℕ) (f : Entry → Entry) → j ≢ i → entry (at es i f) j ≡ entry es j
unfolding at
at-entry [] i j f n = refl
at-entry (x ∷ es) zero zero f n = absurd (n refl)
at-entry (x ∷ es) zero (suc j) f n = refl
at-entry (x ∷ es) (suc i) zero f n = refl
at-entry (x ∷ es) (suc i) (suc j) f n = at-entry es i j f (λ e. n (ap suc e))

next_found-selected : (f : Found) (i : ℕ) → next_found f ≡ selected (suc i) → f ≡ selected i
next_found-selected missing i e = absurd (cc)
next_found-selected in_dispatch i e = absurd (cc)
next_found-selected (selected k) i e = ground arith

next_found_later : (f : Found) → next_found f ≢ selected 0
next_found_later missing e = absurd (cc)
next_found_later in_dispatch e = absurd (cc)
next_found_later (selected k) e = ground arith

-- The entry that a selection finds is the number's, was not active, and is marked.
pub select_its :
    (es : List Entry) (id i : ℕ)
    → (select es id).0 ≡ selected i
    → (is_of id (entry es i) ≡ true)
      × ((entry es i).active ≡ false)
      × (entry (select es id).1 i ≡ record (entry es i) { active = true })
unfolding select
select_its [] id i e = absurd (cc)
select_its (x ∷ es) id zero e = let n = next_found_later (select es id).0 in ground arith
select_its (x ∷ es) id (suc i) e =
    let n = next_found-selected (select es id).0 i in let ih = select_its es id i in ground arith

-- A selection leaves every other entry.
pub select_others :
    (es : List Entry) (id i j : ℕ)
    → (select es id).0 ≡ selected i
    → j ≢ i
    → entry (select es id).1 j ≡ entry es j
unfolding select
select_others [] id i j e n = refl
select_others (x ∷ es) id zero zero e n = absurd (n refl)
select_others (x ∷ es) id zero (suc j) e n =
    let l = next_found_later (select es id).0 in ground arith
select_others (x ∷ es) id (suc i) zero e n = ground arith
select_others (x ∷ es) id (suc i) (suc j) e n =
    let f = next_found-selected (select es id).0 i in
    let ih : (select es id).0 ≡ selected i → entry (select es id).1 j ≡ entry es j =
      λ q. select_others es id i j q (λ p. n (ap suc p)) in
    ground arith
