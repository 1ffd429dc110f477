-- ===== src/StopToken/Safety.antt =====
-- What the owner of a callback may rely on, and the requester of a stop.
use micr_osal.Common.{
  ℕ, ◌+◌, ◌-◌, ◌≤◌, ==→eq, ◌≡◌, refl, ap, ◌∙◌, inl, inr, List, [], ◌∷◌, true, false, ◌==◌,
  if◌then◌else◌, arith, Bool-cases,
}
use micr_osal.StopToken.{
  updated, detached, Requester, absent, ended, calling, called, Source, fresh, construct, take_next,
  request_stop, requester_step, unlinked, await_done, close, Event, constructs, requests,
  requester_goes, closes, rechecks, step, run,
}
use micr_osal.StopToken.Invariant.{times, KeptAt, Kept, chances, Sound, run-Kept, fresh-Sound}

-- A callback without a source that has run `n` times.
abbrev pub Gone : Source → ℕ → ℕ → Type 0
Gone s c n = (s.life c ≡ detached) × (s.ran c ≡ n)

take_next-Gone : (cs : List ℕ) (s : Source) (c n : ℕ) → Gone s c n → Gone (take_next cs s) c n
unfolding take_next
take_next-Gone [] s c n g = g
take_next-Gone (d ∷ cs) s c n g = g

requester_step-Gone :
    (q : Requester) (s : Source) (c n : ℕ)
    → KeptAt s q c (s.life c)
    → Gone s c n
    → Gone (requester_step q s) c n
unfolding requester_step
requester_step-Gone absent s c n k g = g
requester_step-Gone ended s c n k g = g
requester_step-Gone (calling d) s c n k g = ground arith
requester_step-Gone (called d) s c n k g =
    take_next-Gone s.linked (record s { executing = updated s.executing d false }) c n g

request_stop-Gone : (s : Source) (c n : ℕ) → Gone s c n → Gone (request_stop s).1 c n
unfolding request_stop
request_stop-Gone s c n g =
    let t = take_next-Gone s.linked (record s { stopped = true }) c n g in ground arith

step-Gone :
    (max : ℕ) (e : Event) (s : Source) (c n : ℕ) → Kept s → Gone s c n → Gone (step max e s) c n
unfolding step construct close await_done unlinked
step-Gone max (constructs d) s c n k g = ground arith
step-Gone max requests s c n k g = request_stop-Gone s c n g
step-Gone max requester_goes s c n k g = requester_step-Gone s.requester s c n (k c) g
step-Gone max (closes expired d) s c n k g = ground arith
step-Gone max (rechecks expired d) s c n k g = ground arith

run-Gone :
    (max : ℕ) (es : List Event) (s : Source) (c n : ℕ)
    → Sound s
    → Gone s c n
    → Gone (run max es s) c n
unfolding run
run-Gone max [] s c n h g = g
run-Gone max (e ∷ es) s c n h g =
    run-Gone max es (step max e s) c n (run-Kept max (e ∷ []) s h) (step-Gone max e s c n h.kept g)

-- However threads construct and close callbacks and request a stop, a callback runs at most once.
pub callback_once : (max : ℕ) (es : List Event) (c : ℕ) → (run max es fresh).ran c ≤ 1
callback_once max es c =
    let s = run max es fresh in
    let k = ((run-Kept max es fresh fresh-Sound).kept c).once in
    let b : chances (s.life c) ≤ 1 = ground arith in omega (arith, k, b)

-- A callback that is detached from its source, which is where a close that returns ok leaves it, stays
-- so and does not run any more, whatever the threads do.
pub detached-ran :
    (max : ℕ) (before later : List Event) (c : ℕ)
    → (run max before fresh).life c ≡ detached
    → ((run max later (run max before fresh)).life c ≡ detached)
      × ((run max later (run max before fresh)).ran c ≡ (run max before fresh).ran c)
detached-ran max before later c e =
    let s = run max before fresh in
    run-Gone max later s c (s.ran c) (run-Kept max before fresh fresh-Sound) (e, refl)

-- The steps of the requester for each callback of the list: it calls it, and locks again.
abbrev pub rounds : List ℕ → List Event
rounds [] = []
rounds (c ∷ cs) = requester_goes ∷ requester_goes ∷ rounds cs

updated_ran :
    (f : ℕ → ℕ) (c d n : ℕ) → updated f c (f c + 1) d + n ≡ f d + ((if c == d then 1 else 0) + n)
updated_ran f c d n = elim (Bool-cases (d == c)) [
  | inl e ↦ let q = ==→eq d c e in let r = ap f q in ground arith
  | inr e ↦ ground arith
]

take_next-rounds :
    (max : ℕ) (cs : List ℕ) (s : Source) (d : ℕ)
    → ((run max (rounds cs) (take_next cs s)).requester ≡ ended)
      × ((run max (rounds cs) (take_next cs s)).linked ≡ [])
      × ((run max (rounds cs) (take_next cs s)).ran d ≡ s.ran d + times d cs)
unfolding run step requester_step take_next times
take_next-rounds max [] s d = (refl, refl, omega arith)
take_next-rounds max (c ∷ cs) s d =
    let s' : Source = record s {
      linked = cs;
      count = s.count - 1;
      executing = updated (updated s.executing c true) c false;
      ran = updated s.ran c (s.ran c + 1);
      requester = called c;
    } in
    let ih = take_next-rounds max cs s' d in (ih.0, ih.1, ih.2 ∙ updated_ran s.ran c d (times d cs))

-- The first request of a stop, when nothing comes between its steps, calls every callback of the list, as
-- often as it is there, leaves the list empty, and ends.
pub request_stop-rounds :
    (max : ℕ) (s : Source) (d : ℕ)
    → s.stopped ≡ false
    → ((run max (requests ∷ rounds s.linked) s).requester ≡ ended)
      × ((run max (requests ∷ rounds s.linked) s).linked ≡ [])
      × ((run max (requests ∷ rounds s.linked) s).ran d ≡ s.ran d + times d s.linked)
unfolding run step request_stop
request_stop-rounds max s d e =
    rw (e) (take_next-rounds max s.linked (record s { stopped = true }) d)
