-- ===== src/Barrier/Rounds.antt =====
-- Any number of threads at one barrier of src/common/emulated_barrier.inl, in any order, with wakeups
-- that may be spurious and waits that may fail: how many go through.
use micr_osal.Common.{
  ℕ, zero, suc, ◌+◌, ◌-◌, ◌*◌, ◌^◌, ◌≤◌, ◌<◌, ◌≡◌, refl, inl, inr, List, [], ◌∷◌, ◌++◌, ◌==◌,
  if◌then◌else◌, arith, Bool-cases, length, ==→eq, ==→ne, length-append,
}
use micr_osal.Barrier.{Barrier, next, fresh, is_last, opened, counted, same_generation}

-- The barrier, the generation that each blocked thread waits to end, oldest first, and how many
-- threads have arrived, have got barrier_serial, and have come out of their wait. `broken` has the
-- generation of each thread whose wait failed: it is gone, and its arrival stays counted.
pub record Crowd : Type 0 where
  pub barrier : Barrier
  pub inside : List ℕ
  pub broken : List ℕ
  pub arrivals : ℕ
  pub serials : ℕ
  pub released : ℕ

-- A thread arrives; the blocked thread with some number wakes, or its wait returns an error.
pub data Action : Type 0 where
  arrives : Action
  wakes breaks : ℕ → Action

-- The blocked threads after that with number `k` tests the barrier again.
unfoldable pub woken : Barrier → ℕ → List ℕ → List ℕ
woken b k [] = []
woken b zero (g ∷ gs) = if same_generation g b then g ∷ gs else gs
woken b (suc k) (g ∷ gs) = g ∷ woken b k gs

-- The blocked threads without that with number `k`, and its generation.
unfoldable pub without : ℕ → List ℕ → List ℕ
without k [] = []
without zero (g ∷ gs) = gs
without (suc k) (g ∷ gs) = g ∷ without k gs

unfoldable pub with_broken : ℕ → List ℕ → List ℕ → List ℕ
with_broken k [] bs = bs
with_broken zero (g ∷ gs) bs = g ∷ bs
with_broken (suc k) (g ∷ gs) bs = with_broken k gs bs

unfoldable pub step : Crowd → Action → Crowd
step s arrives =
    if is_last s.barrier
    then record s { barrier = opened s.barrier; arrivals = s.arrivals + 1; serials = s.serials + 1 }
    else record s {
      barrier = counted s.barrier;
      inside = s.inside ++ (s.barrier.generation ∷ []);
      arrivals = s.arrivals + 1;
    }
step s (wakes k) =
    let inside' = woken s.barrier k s.inside in
    record s { inside = inside'; released = s.released + (length s.inside - length inside') }
step s (breaks k) = record s {
  inside = without k s.inside;
  broken = with_broken k s.inside s.broken;
}

unfoldable pub run : Crowd → List Action → Crowd
run s [] = s
run s (a ∷ rest) = run (step s a) rest

abbrev pub start : ℕ → Crowd
start count = record {
  barrier = fresh count;
  inside = [];
  broken = [];
  arrivals = 0;
  serials = 0;
  released = 0;
}

-- How many threads wait for the end of generation `g`, and how many for that of another.
unfoldable pub waiting_for : ℕ → List ℕ → ℕ
waiting_for g [] = 0
waiting_for g (x ∷ xs) = (if x == g then 1 else 0) + waiting_for g xs

unfoldable pub free_to_go : ℕ → List ℕ → ℕ
free_to_go g [] = 0
free_to_go g (x ∷ xs) = (if x == g then 0 else 1) + free_to_go g xs

-- No thread waits for a generation that has not begun.
abbrev UpTo : ℕ → List ℕ → Type 0
UpTo g [] = Unit
UpTo g (x ∷ xs) = (x ≤ g) × UpTo g xs

UpTo-snoc : (g : ℕ) (xs : List ℕ) → UpTo g xs → UpTo g (xs ++ (g ∷ []))
UpTo-snoc g [] u = (omega arith, tt)
UpTo-snoc g (x ∷ xs) u = (u.0, UpTo-snoc g xs u.1)

UpTo-next : (g : ℕ) (xs : List ℕ) → UpTo g xs → UpTo (g + 1) xs
UpTo-next g [] u = tt
UpTo-next g (x ∷ xs) u = (omega (arith, u.0), UpTo-next g xs u.1)

UpTo-woken : (g : ℕ) (b : Barrier) (k : ℕ) (xs : List ℕ) → UpTo g xs → UpTo g (woken b k xs)
unfolding woken
UpTo-woken g b k [] u = tt
UpTo-woken g b zero (x ∷ xs) u = elim (Bool-cases (same_generation x b)) [
  | inl e ↦ rw e u
  | inr e ↦ rw e (u.1)
]
UpTo-woken g b (suc k) (x ∷ xs) u = (u.0, UpTo-woken g b k xs u.1)

waiting_for-next : (g : ℕ) (xs : List ℕ) → UpTo g xs → waiting_for (g + 1) xs ≡ 0
unfolding waiting_for
waiting_for-next g [] u = refl
waiting_for-next g (x ∷ xs) u = let ih = waiting_for-next g xs u.1 in ground (arith, u.0)

waiting_for-snoc : (g : ℕ) (xs : List ℕ) → waiting_for g (xs ++ (g ∷ [])) ≡ waiting_for g xs + 1
unfolding waiting_for
waiting_for-snoc g [] = ground arith
waiting_for-snoc g (x ∷ xs) = let ih = waiting_for-snoc g xs in omega arith

-- A thread that waits for the current generation stays.
waiting_for-woken :
    (b : Barrier) (k : ℕ) (xs : List ℕ)
    → waiting_for b.generation (woken b k xs) ≡ waiting_for b.generation xs
unfolding waiting_for woken
waiting_for-woken b k [] = refl
waiting_for-woken b zero (x ∷ xs) = elim (Bool-cases (same_generation x b)) [
  | inl e ↦ ground (arith, e)
  | inr e ↦ rw e (ground arith)
]
waiting_for-woken b (suc k) (x ∷ xs) = let ih = waiting_for-woken b k xs in omega arith

length-woken : (b : Barrier) (k : ℕ) (xs : List ℕ) → length (woken b k xs) ≤ length xs
unfolding woken
length-woken b k [] = omega arith
length-woken b zero (x ∷ xs) = ground arith
length-woken b (suc k) (x ∷ xs) = let ih = length-woken b k xs in omega arith

waiting_for+free_to_go : (g : ℕ) (xs : List ℕ) → waiting_for g xs + free_to_go g xs ≡ length xs
unfolding waiting_for free_to_go
waiting_for+free_to_go g [] = refl
waiting_for+free_to_go g (x ∷ xs) = let ih = waiting_for+free_to_go g xs in ground arith

-- A thread whose wait fails goes from the ones to the others.
count_broken :
    (g k : ℕ) (xs bs : List ℕ)
    → waiting_for g (without k xs) + waiting_for g (with_broken k xs bs)
      ≡ waiting_for g xs + waiting_for g bs
unfolding waiting_for without with_broken
count_broken g k [] bs = refl
count_broken g zero (x ∷ xs) bs = omega arith
count_broken g (suc k) (x ∷ xs) bs = let ih = count_broken g k xs bs in omega arith

length_broken :
    (k : ℕ) (xs bs : List ℕ)
    → length (without k xs) + length (with_broken k xs bs) ≡ length xs + length bs
unfolding without with_broken
length_broken k [] bs = refl
length_broken zero (x ∷ xs) bs = omega arith
length_broken (suc k) (x ∷ xs) bs = let ih = length_broken k xs bs in omega arith

UpTo-without : (g k : ℕ) (xs : List ℕ) → UpTo g xs → UpTo g (without k xs)
unfolding without
UpTo-without g k [] u = tt
UpTo-without g zero (x ∷ xs) u = u.1
UpTo-without g (suc k) (x ∷ xs) u = (u.0, UpTo-without g k xs u.1)

UpTo-with_broken : (g k : ℕ) (xs bs : List ℕ) → UpTo g xs → UpTo g bs → UpTo g (with_broken k xs bs)
unfolding with_broken
UpTo-with_broken g k [] bs u v = v
UpTo-with_broken g zero (x ∷ xs) bs u v = (u.0, v)
UpTo-with_broken g (suc k) (x ∷ xs) bs u v = UpTo-with_broken g k xs bs u.1 v

record Sound (count : ℕ) (s : Crowd) : Type 0 where
  full : s.barrier.threshold ≡ count
  below : s.barrier.arrived < count
  current :
      s.barrier.arrived
      ≡ waiting_for s.barrier.generation s.inside + waiting_for s.barrier.generation s.broken
  round : s.barrier.generation ≡ s.serials
  known : UpTo s.barrier.generation s.inside
  known_broken : UpTo s.barrier.generation s.broken
  all_in : s.arrivals ≡ s.serials * count + s.barrier.arrived
  all_out : s.arrivals ≡ s.serials + s.released + length s.inside + length s.broken

arrives-Sound :
    (count : ℕ) (s : Crowd)
    → count < 2 ^ 32
    → s.arrivals + 1 < 2 ^ 32
    → Sound count s
    → Sound count (step s arrives)
unfolding step
arrives-Sound count s small fits i =
    let in_range : s.serials + 1 < 2 ^ 32 = omega (arith, i.all_out) in
    elim (Bool-cases (is_last s.barrier)) [
      | inl l ↦
          let last = ==→eq (next s.barrier.arrived) s.barrier.threshold l in
          let up : next s.barrier.generation ≡ s.barrier.generation + 1 = omega (arith, i.round) in
          rw l (record {
            full = i.full;
            below = omega (arith, i.below);
            current = rw up (
                omega (
                  arith,
                  waiting_for-next s.barrier.generation s.inside i.known,
                  waiting_for-next s.barrier.generation s.broken i.known_broken,
                ));
            round = omega (arith, i.round);
            known = rw up (UpTo-next s.barrier.generation s.inside i.known);
            known_broken = rw up (UpTo-next s.barrier.generation s.broken i.known_broken);
            all_in = omega (arith, i.all_in, i.full, i.below);
            all_out = omega (arith, i.all_out);
          })
      | inr l ↦
          let more = ==→ne (next s.barrier.arrived) s.barrier.threshold l in
          let one_more : next s.barrier.arrived ≡ s.barrier.arrived + 1 = omega (arith, i.below) in
          rw l (record {
            full = i.full;
            below = omega (arith, i.below, i.full);
            current =
                omega (arith, one_more, i.current, waiting_for-snoc s.barrier.generation s.inside);
            round = i.round;
            known = UpTo-snoc s.barrier.generation s.inside i.known;
            known_broken = i.known_broken;
            all_in = omega (arith, i.all_in);
            all_out = omega (arith, i.all_out, length-append s.inside (s.barrier.generation ∷ []));
          })
    ]

wakes-Sound : (count : ℕ) (s : Crowd) (k : ℕ) → Sound count s → Sound count (step s (wakes k))
unfolding step
wakes-Sound count s k i = record {
  full = i.full;
  below = i.below;
  current = omega (arith, i.current, waiting_for-woken s.barrier k s.inside);
  round = i.round;
  known = UpTo-woken s.barrier.generation s.barrier k s.inside i.known;
  known_broken = i.known_broken;
  all_in = i.all_in;
  all_out = omega (arith, i.all_out, length-woken s.barrier k s.inside);
}

breaks-Sound : (count : ℕ) (s : Crowd) (k : ℕ) → Sound count s → Sound count (step s (breaks k))
unfolding step
breaks-Sound count s k i = record {
  full = i.full;
  below = i.below;
  current = omega (arith, i.current, count_broken s.barrier.generation k s.inside s.broken);
  round = i.round;
  known = UpTo-without s.barrier.generation k s.inside i.known;
  known_broken = UpTo-with_broken s.barrier.generation k s.inside s.broken i.known i.known_broken;
  all_in = i.all_in;
  all_out = omega (arith, i.all_out, length_broken k s.inside s.broken);
}

arrivals-step : (s : Crowd) (a : Action) → (step s a).arrivals ≤ s.arrivals + 1
unfolding step
arrivals-step s arrives = ground arith
arrivals-step s (wakes k) = omega arith
arrivals-step s (breaks k) = omega arith

run-Sound :
    (count : ℕ) (s : Crowd) (xs : List Action)
    → count < 2 ^ 32
    → s.arrivals + length xs < 2 ^ 32
    → Sound count s
    → Sound count (run s xs)
unfolding run
run-Sound count s [] small fits i = i
run-Sound count s (arrives ∷ xs) small fits i =
    run-Sound count (step s arrives) xs small (omega (arith, arrivals-step s arrives))
      (arrives-Sound count s small (omega arith) i)
run-Sound count s (wakes k ∷ xs) small fits i =
    run-Sound count (step s (wakes k)) xs small (omega (arith, arrivals-step s (wakes k)))
      (wakes-Sound count s k i)
run-Sound count s (breaks k ∷ xs) small fits i =
    run-Sound count (step s (breaks k)) xs small (omega (arith, arrivals-step s (breaks k)))
      (breaks-Sound count s k i)

-- However threads arrive at a new barrier for `count`, wake, and have their waits fail, in fewer than
-- 2 ^ 32 steps: the arrivals are `count` for each thread that got barrier_serial and fewer than `count`
-- more, which wait for the current generation or whose waits for it failed; and for each thread that got
-- barrier_serial exactly `count` threads, itself included, have gone through, are free to go, or have
-- had their wait for an earlier generation fail. So without failures exactly `count` go through.
pub barrier_rounds :
    (count : ℕ) (xs : List Action)
    → 0 < count
    → count < 2 ^ 32
    → length xs < 2 ^ 32
    → let s = run (start count) xs in
      let g = s.barrier.generation in
      let current = waiting_for g s.inside + waiting_for g s.broken in
      (s.arrivals ≡ s.serials * count + current)
      × (current < count)
      × (s.serials + s.released + free_to_go g s.inside + free_to_go g s.broken ≡ s.serials * count)
unfolding waiting_for
barrier_rounds count xs positive small fits =
    let s = run (start count) xs in
    let i₀ : Sound count (start count) = record {
      full = refl;
      below = positive;
      current = refl;
      round = refl;
      known = tt;
      known_broken = tt;
      all_in = omega arith;
      all_out = refl;
    } in
    let i = run-Sound count (start count) xs small (omega arith) i₀ in
    let both = waiting_for+free_to_go s.barrier.generation s.inside in
    let lost = waiting_for+free_to_go s.barrier.generation s.broken in
    (
      omega (arith, i.all_in, i.current),
      omega (arith, i.below, i.current),
      omega (arith, i.all_in, i.all_out, i.current),
    )
