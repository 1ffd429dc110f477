-- ===== src/ThreadLocal/Refine.antt =====
-- What threads may rely on: a table of what each thread stored under each key.
use micr_osal.Common.{
  ℕ, zero, suc, ◌+◌, ◌^◌, ◌≤◌, ◌<◌, ◌≡◌, ◌≢◌, refl, ap, ap₂, inl, inr, List, [], ◌∷◌, Bool, true,
  false, leb, ◌==◌, if◌then◌else◌, length, replicate, set, arith, Option-cases, Bool-cases, subst,
  ==→eq, ==→ne,
}
use micr_osal.Slots.{acquire, release, acquire-some}
use micr_osal.ThreadLocal.{
  put, Storage, fresh, bumped, take_bit, acquire_key, clear_bit, release_key, store, load, create,
}
use micr_osal.ThreadLocal.Spec.{
  Call, exists, call, replies, Table, spec_call, spec_replies, creates, destroys, sets, gets, value,
}

-- After `n` calls the storage stands for the table.
pub record Stands (n : ℕ) (s : Storage) (m : Table) : Type 0 where
  pub same_keys : s.used ≡ m.keys
  pub counted : (k : ℕ) → s.generations k ≤ n
  pub seen : (t k : ℕ) → s.generations_seen t k ≤ s.generations k
  pub holds :
      (t k : ℕ)
      → exists s.used k ≡ true
      → (if s.generations_seen t k == s.generations k then s.values t k else 0) ≡ m.held t k

exists-bound : (used : List Bool) (k : ℕ) → exists used k ≡ true → k < length used
exists-bound [] k e = absurd (cc)
exists-bound (b ∷ used) zero e = omega arith
exists-bound (b ∷ used) (suc k) e = let ih = exists-bound used k e in omega arith

exists-set_other :
    (used : List Bool) (k j : ℕ) (b : Bool) → j ≢ k → exists (set used k b) j ≡ exists used j
exists-set_other [] k j b n = refl
exists-set_other (x ∷ used) zero zero b n = absurd (n refl)
exists-set_other (x ∷ used) zero (suc j) b n = refl
exists-set_other (x ∷ used) (suc k) zero b n = refl
exists-set_other (x ∷ used) (suc k) (suc j) b n = exists-set_other used k j b (λ e. n (ap suc e))

exists-set_clear : (used : List Bool) (k : ℕ) → exists (set used k false) k ≡ false
exists-set_clear [] k = refl
exists-set_clear (x ∷ used) zero = refl
exists-set_clear (x ∷ used) (suc k) = exists-set_clear used k

fresh-Stands :
    (k_max : ℕ) → Stands 0 (fresh k_max) (record { keys = replicate k_max false; held = λ t k. 0 })
fresh-Stands k_max = ground arith

in_range : (used : List Bool) (k : ℕ) → exists used k ≡ true → leb (length used) k ≡ false
in_range used k e = let b = exists-bound used k e in ground arith

Stands-later : (n : ℕ) (s : Storage) (m : Table) → Stands n s m → Stands (n + 1) s m
Stands-later n s m h = record {
  same_keys = h.same_keys;
  counted = λ k. let b = h.counted k in omega arith;
  seen = h.seen;
  holds = h.holds;
}

-- The storage after a store under a key in use.
abbrev stored : Storage → ℕ → ℕ → ℕ → Storage
stored s thread key x = record s {
  values = put s.values thread (put (s.values thread) key x);
  generations_seen =
      put s.generations_seen thread (put (s.generations_seen thread) key (s.generations key));
}

stored-Stands :
    (n : ℕ) (s : Storage) (m : Table) (key thread x : ℕ)
    → Stands n s m
    → Stands n
        (stored s thread key x)
        (record m { held = put m.held thread (put (m.held thread) key x) })
stored-Stands n s m key thread x h = record {
  same_keys = h.same_keys;
  counted = h.counted;
  seen = λ t k. let b = h.seen t k in ground arith;
  holds = λ t k e. let b = h.holds t k e in ground arith;
}

-- The storage after the key `i` was taken.
taken-Stands :
    (n : ℕ) (s : Storage) (m : Table) (i : ℕ)
    → n + 1 < 2 ^ 32
    → Stands n s m
    → Stands
        (n + 1)
        (bumped (record s { used = set s.used i true }) i)
        (record { keys = set s.used i true; held = λ t. put (m.held t) i 0 })
taken-Stands n s m i b h = record {
  same_keys = refl;
  counted = λ k. let c = h.counted k in let d = h.counted i in ground arith;
  seen = λ t k. let c = h.seen t k in let d = h.counted i in ground arith;
  holds = λ t k e.
      let c = h.seen t k in
      let d = h.counted i in
      let o = h.holds t k in let x = exists-set_other s.used i k true in ground arith;
}

dropped-Stands :
    (n : ℕ) (s : Storage) (m : Table) (i : ℕ)
    → n + 1 < 2 ^ 32
    → Stands n s m
    → Stands
        (n + 1)
        (bumped (record s { used = set s.used i false }) i)
        (record m { keys = set s.used i false })
dropped-Stands n s m i b h = record {
  same_keys = refl;
  counted = λ k. let c = h.counted k in let d = h.counted i in ground arith;
  seen = λ t k. let c = h.seen t k in let d = h.counted i in ground arith;
  holds = λ t k e.
      let o = h.holds t k in
      let x = exists-set_other s.used i k false in
      let y = exists-set_clear s.used i in
      elim (Bool-cases (k == i)) [
        | inl q ↦ let p = ==→eq k i q in absurd (cc)
        | inr q ↦ let p = ==→ne k i q in let z = x p in ground arith
      ];
}

abbrev table_of : Storage → (ℕ → ℕ → ℕ) → Table
table_of s held = record { keys = s.used; held = held }

acquire_call :
    (n : ℕ) (s : Storage) (held : ℕ → ℕ → ℕ)
    → n + 1 < 2 ^ 32
    → Stands n s (table_of s held)
    → ((call s creates).0 ≡ (spec_call (table_of s held) creates).0)
      × Stands (n + 1) (call s creates).1 (spec_call (table_of s held) creates).1
unfolding call spec_call take_bit create acquire_key
acquire_call n s held b h = elim (Option-cases (acquire s.used)) [
  | inl q ↦
      rw (q, call, create, acquire_key, take_bit, spec_call)
        (refl, Stands-later n s (table_of s held) h)
  | inr ((i, used), q) ↦
      let u = (acquire-some s.used q).1 in
      rw (q, u, call, create, acquire_key, take_bit, spec_call)
        (refl, taken-Stands n s (table_of s held) i b h)
]

destroy_call :
    (key n : ℕ) (s : Storage) (held : ℕ → ℕ → ℕ)
    → n + 1 < 2 ^ 32
    → Stands n s (table_of s held)
    → ((call s (destroys key)).0 ≡ (spec_call (table_of s held) (destroys key)).0)
      × Stands (n + 1) (call s (destroys key)).1 (spec_call (table_of s held) (destroys key)).1
unfolding call spec_call release_key clear_bit release
destroy_call key n s held b h = elim (Bool-cases (exists s.used key)) [
  | inl q ↦ rw (q, in_range s.used key q) (refl, dropped-Stands n s (table_of s held) key b h)
  | inr q ↦ rw (q) (refl, Stands-later n s (table_of s held) h)
]

set_call :
    (key thread x n : ℕ) (s : Storage) (held : ℕ → ℕ → ℕ)
    → Stands n s (table_of s held)
    → ((call s (sets key thread x)).0 ≡ (spec_call (table_of s held) (sets key thread x)).0)
      × Stands
          (n + 1)
          (call s (sets key thread x)).1
          (spec_call (table_of s held) (sets key thread x)).1
unfolding call spec_call store
set_call key thread x n s held h = elim (Bool-cases (exists s.used key)) [
  | inl q ↦
      rw (q, in_range s.used key q)
        (refl, Stands-later n _ _ (stored-Stands n s (table_of s held) key thread x h))
  | inr q ↦ rw (q) (refl, Stands-later n s (table_of s held) h)
]

get_call :
    (key thread n : ℕ) (s : Storage) (held : ℕ → ℕ → ℕ)
    → Stands n s (table_of s held)
    → ((call s (gets key thread)).0 ≡ (spec_call (table_of s held) (gets key thread)).0)
      × Stands
          (n + 1)
          (call s (gets key thread)).1
          (spec_call (table_of s held) (gets key thread)).1
unfolding call spec_call load
get_call key thread n s held h = elim (Bool-cases (exists s.used key)) [
  | inl q ↦
      rw (q, in_range s.used key q)
        (ap value (h.holds thread key q), Stands-later n s (table_of s held) h)
  | inr q ↦ rw (q) (refl, Stands-later n s (table_of s held) h)
]

call-Stands :
    (c : Call) (n : ℕ) (s : Storage) (held : ℕ → ℕ → ℕ)
    → n + 1 < 2 ^ 32
    → Stands n s (table_of s held)
    → ((call s c).0 ≡ (spec_call (table_of s held) c).0)
      × Stands (n + 1) (call s c).1 (spec_call (table_of s held) c).1
call-Stands creates n s held b h = acquire_call n s held b h
call-Stands (destroys key) n s held b h = destroy_call key n s held b h
call-Stands (sets key thread x) n s held b h = set_call key thread x n s held h
call-Stands (gets key thread) n s held b h = get_call key thread n s held h

Stands-step :
    (c : Call) (n : ℕ) (s : Storage) (m : Table)
    → n + 1 < 2 ^ 32
    → Stands n s m
    → ((call s c).0 ≡ (spec_call m c).0) × Stands (n + 1) (call s c).1 (spec_call m c).1
Stands-step c n s m b h =
    let at : List Bool → Table = λ keys. record { keys = keys; held = m.held } in
    subst
      (λ keys.
        Stands n s (at keys)
        → ((call s c).0 ≡ (spec_call (at keys) c).0)
          × Stands (n + 1) (call s c).1 (spec_call (at keys) c).1)
      h.same_keys (call-Stands c n s m.held b) h

replies-same :
    (cs : List Call) (n : ℕ) (s : Storage) (m : Table)
    → n + length cs < 2 ^ 32
    → Stands n s m
    → replies s cs ≡ spec_replies m cs
unfolding replies spec_replies
replies-same [] n s m b h = refl
replies-same (c ∷ cs) n s m b h =
    let q = Stands-step c n s m (omega arith) h in
    ap₂ (λ r rs. r ∷ rs) q.0
      (replies-same cs (n + 1) (call s c).1 (spec_call m c).1 (omega arith) q.1)

-- In any sequence of fewer than 2^32 calls on objects that exist, no call of one thread changes what
-- another finds: a get returns what its own thread set last under the object since the object was made,
-- and null when it has set nothing.
pub storage_refines :
    (cs : List Call) (k_max : ℕ)
    → length cs < 2 ^ 32
    → replies (fresh k_max) cs
      ≡ spec_replies (record { keys = replicate k_max false; held = λ t k. 0 }) cs
storage_refines cs k_max b = replies-same cs 0 (fresh k_max) _ (omega arith) (fresh-Stands k_max)
