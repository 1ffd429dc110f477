-- ===== src/StopToken/Invariant.antt =====
-- What holds of each callback of a stop source.
use micr_osal.Common.{
  ℕ, ◌+◌, ◌-◌, ◌≤◌, ◌≡◌, ◌≢◌, refl, inl, inr, List, [], ◌∷◌, Bool, true, false, ◌==◌, if◌then◌else◌,
  arith, Bool-cases,
}
use micr_osal.StopToken.{
  updated, Life, unborn, registered, detached, Requester, absent, ended, calling, called, Source,
  fresh, construct, take_next, request_stop, requester_step, unlink, unlinked, await_done, close,
  Event, constructs, requests, requester_goes, closes, rechecks, is_unborn, has_source, is_closing,
  step, run,
}

-- How often a callback is in the list.
unfoldable pub times : ℕ → List ℕ → ℕ
times c [] = 0
times c (d ∷ ds) = (if d == c then 1 else 0) + times c ds

-- Whether the requester is about to call the callback, and whether it has it in hand.
abbrev pub to_call : ℕ → Requester → ℕ
to_call c (calling d) = if d == c then 1 else 0
to_call c _ = 0

abbrev pub in_hand_of : ℕ → Requester → Bool
in_hand_of c (calling d) = d == c
in_hand_of c (called d) = d == c
in_hand_of c _ = false

-- How often a callback may still run, or has run.
abbrev pub chances : Life → ℕ
chances unborn = 0
chances _ = 1

abbrev pub rests : Life → Bool
rests unborn = true
rests detached = true
rests _ = false

abbrev pub may_be_linked : Life → ℕ
may_be_linked registered = 1
may_be_linked _ = 0

pub record KeptAt (s : Source) (q : Requester) (c : ℕ) (l : Life) : Type 0 where
  pub once : times c s.linked + to_call c q + s.ran c ≤ chances l
  pub listed : times c s.linked ≤ may_be_linked l
  pub executes : s.executing c ≡ in_hand_of c q
  pub at_rest : rests l ≡ true → s.executing c ≡ false

abbrev pub Kept : Source → Type 0
Kept s = (c : ℕ) → KeptAt s s.requester c (s.life c)

fresh-Kept : Kept fresh
unfolding times
fresh-Kept c = ground arith

times-unlink_other : (c d : ℕ) (ds : List ℕ) → d ≢ c → times d (unlink c ds) ≡ times d ds
unfolding times unlink
times-unlink_other c d [] n = refl
times-unlink_other c d (x ∷ ds) n = let ih = times-unlink_other c d ds n in ground arith

times-unlink : (c : ℕ) (ds : List ℕ) → times c (unlink c ds) ≡ times c ds - 1
unfolding times unlink
times-unlink c [] = refl
times-unlink c (x ∷ ds) = let ih = times-unlink c ds in ground arith

construct-Kept :
    (max c : ℕ) (s : Source) (d : ℕ)
    → s.life c ≡ unborn
    → Kept s
    → KeptAt (construct max c s).1 (construct max c s).1.requester d ((construct max c s).1.life d)
unfolding construct times
construct-Kept max c s d u h = let k = h d in ground arith

-- The requester takes the next callback from the list.
take_next-Kept :
    (cs : List ℕ) (s : Source) (d : ℕ)
    → times d cs + s.ran d ≤ chances (s.life d)
    → times d cs ≤ may_be_linked (s.life d)
    → s.executing d ≡ false
    → KeptAt (take_next cs s) (take_next cs s).requester d ((take_next cs s).life d)
unfolding take_next times
take_next-Kept [] s d o l e = ground arith
take_next-Kept (c ∷ cs) s d o l e = ground arith

request_stop-Kept :
    (s : Source) (d : ℕ)
    → Kept s
    → (s.stopped ≡ false → s.requester ≡ absent)
    → KeptAt (request_stop s).1 (request_stop s).1.requester d ((request_stop s).1.life d)
unfolding request_stop
request_stop-Kept s d h a = elim (Bool-cases s.stopped) [
  | inl e ↦
      let k = h d in
      rw (e)
        (record { once = k.once; listed = k.listed; executes = k.executes; at_rest = k.at_rest })
  | inr e ↦
      let k = h d in
      let r = a e in
      rw (e) (
        take_next-Kept s.linked (record s { stopped = true }) d (ground arith) k.listed
          (ground arith))
]

requester_step-Kept :
    (q : Requester) (s : Source) (d : ℕ)
    → KeptAt s s.requester d (s.life d)
    → KeptAt s q d (s.life d)
    → KeptAt (requester_step q s) (requester_step q s).requester d ((requester_step q s).life d)
unfolding requester_step
requester_step-Kept absent s d h g = h
requester_step-Kept ended s d h g = h
requester_step-Kept (calling c) s d h g = ground arith
requester_step-Kept (called c) s d h g =
    take_next-Kept s.linked (record s { executing = updated s.executing c false }) d (ground arith)
      g.listed (ground arith)

await_done-Kept :
    (expired : Bool) (c : ℕ) (s : Source) (d : ℕ)
    → times c s.linked ≡ 0
    → s.life c ≢ unborn
    → KeptAt s s.requester d (s.life d)
    → KeptAt
        (await_done expired c s).1
        (await_done expired c s).1.requester
        d
        ((await_done expired c s).1.life d)
unfolding await_done
await_done-Kept expired c s d n u h = ground arith

unlinked-Kept :
    (c : ℕ) (s : Source) (d : ℕ)
    → KeptAt s s.requester d (s.life d)
    → KeptAt (unlinked c s) s.requester d (s.life d)
unfolding unlinked
unlinked-Kept c s d h =
    let o = times-unlink_other c d s.linked in let m = times-unlink c s.linked in ground arith

times-unlinked :
    (c : ℕ) (s : Source) → KeptAt s s.requester c (s.life c) → times c (unlinked c s).linked ≡ 0
unfolding unlinked
times-unlinked c s h =
    let m = times-unlink c s.linked in
    let b : may_be_linked (s.life c) ≤ 1 = ground arith in omega (arith, m, h.listed, b)

-- Only a source that has been stopped has a requester.
abbrev pub Awaits : Source → Type 0
Awaits s = s.stopped ≡ false → s.requester ≡ absent

pub record Sound (s : Source) : Type 0 where
  pub kept : Kept s
  pub awaits : Awaits s

close-Kept :
    (expired : Bool) (c : ℕ) (s : Source) (d : ℕ)
    → s.life c ≡ registered
    → Kept s
    → KeptAt (close expired c s).1 (close expired c s).1.requester d ((close expired c s).1.life d)
unfolding close
close-Kept expired c s d e h =
    await_done-Kept expired c (unlinked c s) d (times-unlinked c s (h c)) (ground arith)
      (unlinked-Kept c s d (h d))

pub step-Kept : (max : ℕ) (e : Event) (s : Source) → Sound s → Kept (step max e s)
unfolding step
step-Kept max (constructs c) s h d = elim (Bool-cases (is_unborn (s.life c))) [
  | inl u ↦ rw (u) (construct-Kept max c s d (ground arith) h.kept)
  | inr u ↦ rw (u) (h.kept d)
]
step-Kept max requests s h d = request_stop-Kept s d h.kept h.awaits
step-Kept max requester_goes s h d = requester_step-Kept s.requester s d (h.kept d) (h.kept d)
step-Kept max (closes expired c) s h d = elim (Bool-cases (has_source (s.life c))) [
  | inl u ↦ rw (u) (close-Kept expired c s d (ground arith) h.kept)
  | inr u ↦ rw (u) (h.kept d)
]
step-Kept max (rechecks expired c) s h d =
    let k = (h.kept c).listed in
    elim (Bool-cases (is_closing (s.life c))) [
      | inl u ↦ rw (u) (await_done-Kept expired c s d (ground arith) (ground arith) (h.kept d))
      | inr u ↦ rw (u) (h.kept d)
    ]

take_next-stopped : (cs : List ℕ) (s : Source) → (take_next cs s).stopped ≡ s.stopped
unfolding take_next
take_next-stopped [] s = refl
take_next-stopped (c ∷ cs) s = refl

requests-Awaits : (s : Source) → Awaits s → Awaits (request_stop s).1
unfolding request_stop
requests-Awaits s a =
    let t = take_next-stopped s.linked (record s { stopped = true }) in ground arith

requester-Awaits :
    (q : Requester) (s : Source) → s.requester ≡ q → Awaits s → Awaits (requester_step q s)
unfolding requester_step
requester-Awaits absent s e a = a
requester-Awaits ended s e a = a
requester-Awaits (calling c) s e a = ground arith
requester-Awaits (called c) s e a =
    let t = take_next-stopped s.linked (record s { executing = updated s.executing c false }) in
    ground arith

pub step-Awaits : (max : ℕ) (e : Event) (s : Source) → Awaits s → Awaits (step max e s)
unfolding step
step-Awaits max (constructs c) s a = ground arith
step-Awaits max requests s a = requests-Awaits s a
step-Awaits max requester_goes s a = requester-Awaits s.requester s refl a
step-Awaits max (closes expired c) s a = ground arith
step-Awaits max (rechecks expired c) s a = ground arith

pub run-Kept : (max : ℕ) (es : List Event) (s : Source) → Sound s → Sound (run max es s)
unfolding run
run-Kept max [] s h = h
run-Kept max (e ∷ es) s h =
    run-Kept max es (step max e s)
      (record { kept = step-Kept max e s h; awaits = step-Awaits max e s h.awaits })

pub fresh-Sound : Sound fresh
fresh-Sound = record { kept = fresh-Kept; awaits = λ e. refl }
