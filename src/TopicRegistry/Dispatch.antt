-- ===== src/TopicRegistry/Dispatch.antt =====
-- Threads that register, unregister and dispatch, between the two locks of a dispatch too.
use micr_osal.Common.{
  ℕ, zero, suc, ◌≡◌, ◌≢◌, refl, sym, ap, ◌∙◌, inl, inr, List, [], ◌∷◌, some, true, false, ◌==◌,
  arith, Bool-cases, Option-cases,
}
use micr_osal.TopicRegistry.{
  Entry, fresh, is_registered, fill, register_topic, remove, unregister_topic, Found, missing,
  in_dispatch, selected, select, at, finish,
}
use micr_osal.TopicRegistry.Entries.{
  entry, fill-entry, remove-entry, at-entry, select_its, select_others,
}
use micr_osal.TopicRegistry.Threads.{
  Pending, System, Event, pick, begin_dispatch, step, run, registers, unregisters, begins, ends,
}

-- The entry of a pending dispatch is active, and has its topic, which is not null.
pub record Holds (es : List Entry) (p : Pending) : Type 0 where
  pub active : (entry es p.index).active ≡ true
  pub same_topic : (entry es p.index).topic ≡ p.topic
  pub present : p.topic ≢ 0

abbrev pub AllHold : List Entry → List Pending → Type 0
AllHold es [] = Unit
AllHold es (p ∷ ps) = Holds es p × AllHold es ps

abbrev pub Apart : ℕ → List Pending → Type 0
Apart i [] = Unit
Apart i (p ∷ ps) = (p.index ≢ i) × Apart i ps

abbrev pub AllApart : List Pending → Type 0
AllApart [] = Unit
AllApart (p ∷ ps) = Apart p.index ps × AllApart ps

-- A change that keeps the entries of pending dispatches.
Holds-same :
    (es es' : List Entry) (p : Pending)
    → entry es' p.index ≡ entry es p.index
    → Holds es p
    → Holds es' p
Holds-same es es' p e h = ground arith

register-AllHold :
    (es es' : List Entry) (new : Entry) (ps : List Pending)
    → fill es new ≡ some es'
    → AllHold es ps
    → AllHold es' ps
register-AllHold es es' new [] f h = tt
register-AllHold es es' new (p ∷ ps) f h = (
  Holds-same es es' p (fill-entry es new p.index f (λ e. h.0.present (sym h.0.same_topic ∙ e))) h.0,
  register-AllHold es es' new ps f h.1,
)

remove-AllHold :
    (es : List Entry) (id : ℕ) (ps : List Pending) → AllHold es ps → AllHold (remove es id).1 ps
remove-AllHold es id [] h = tt
remove-AllHold es id (p ∷ ps) h = (
  Holds-same es (remove es id).1 p (remove-entry es id p.index h.0.active) h.0,
  remove-AllHold es id ps h.1,
)

-- A change of one entry, apart from which the pending dispatches are.
others-AllHold :
    (es es' : List Entry) (i : ℕ) (ps : List Pending)
    → ((j : ℕ) → j ≢ i → entry es' j ≡ entry es j)
    → Apart i ps
    → AllHold es ps
    → AllHold es' ps
others-AllHold es es' i [] f a h = tt
others-AllHold es es' i (p ∷ ps) f a h =
    (Holds-same es es' p (f p.index a.0) h.0, others-AllHold es es' i ps f a.1 h.1)

-- An entry that is not active is no pending dispatch's.
inactive-Apart :
    (es : List Entry) (i : ℕ) (ps : List Pending)
    → (entry es i).active ≡ false
    → AllHold es ps
    → Apart i ps
inactive-Apart es i [] e h = tt
inactive-Apart es i (p ∷ ps) e h = (
  λ q. let r = h.0.active in let b = ap (λ j. (entry es j).active) q in absurd (cc),
  inactive-Apart es i ps e h.1,
)

pub record Safe (s : System) : Type 0 where
  pub hold : AllHold s.registry.entries s.pending
  pub apart : AllApart s.pending

-- The others stay apart when one ends.
pick-Apart :
    (i : ℕ) (ps : List Pending) (k : ℕ) {p : Pending} {qs : List Pending}
    → pick ps k ≡ some (p, qs)
    → Apart i ps
    → (p.index ≢ i) × Apart i qs
unfolding pick
pick-Apart i [] k e a = absurd (cc)
pick-Apart i (q ∷ ps) zero e a = ground arith
pick-Apart i (q ∷ ps) (suc k) {p} {qs} e a = elim (Option-cases (pick ps k)) [
  | inl n ↦ ground arith
  | inr ((r, rs), n) ↦
      let ih = pick-Apart i ps k n a.1 in
      let same : (r ≡ p) × (q ∷ rs ≡ qs) = ground arith in
      rw (← same.0, ← same.1) (ih.0, (a.0, ih.1))
]

pick-AllHold :
    (es : List Entry) (ps : List Pending) (k : ℕ) {p : Pending} {qs : List Pending}
    → pick ps k ≡ some (p, qs)
    → AllHold es ps
    → AllHold es qs
unfolding pick
pick-AllHold es [] k e h = absurd (cc)
pick-AllHold es (q ∷ ps) zero e h = ground arith
pick-AllHold es (q ∷ ps) (suc k) {p} {qs} e h = elim (Option-cases (pick ps k)) [
  | inl n ↦ absurd (ground arith)
  | inr ((r, rs), n) ↦
      let ih = pick-AllHold es ps k n h.1 in
      let same : q ∷ rs ≡ qs = ground arith in rw (← same) (h.0, ih)
]

pick-AllApart :
    (ps : List Pending) (k : ℕ) {p : Pending} {qs : List Pending}
    → pick ps k ≡ some (p, qs)
    → AllApart ps
    → AllApart qs × Apart p.index qs
unfolding pick
pick-AllApart [] k e h = absurd (cc)
pick-AllApart (q ∷ ps) zero e h = ground arith
pick-AllApart (q ∷ ps) (suc k) {p} {qs} e h = elim (Option-cases (pick ps k)) [
  | inl n ↦ absurd (ground arith)
  | inr ((r, rs), n) ↦
      let ih = pick-AllApart ps k n h.1 in
      let a = pick-Apart q.index ps k n h.0 in
      let same : (r ≡ p) × (q ∷ rs ≡ qs) = ground arith in
      rw (← same.0, ← same.1) ((a.1, ih.0), ((λ f. a.0 (sym f)), ih.1))
]

register-Safe : (topic : ℕ) (s : System) → Safe s → Safe (step s (registers topic))
unfolding step register_topic
register-Safe topic s h =
    let new : Entry = record { topic = topic; id = s.registry.next_id; active = false } in
    elim (Bool-cases (is_registered s.registry.entries topic)) [
      | inl q ↦ rw (q) h
      | inr q ↦ elim (Bool-cases (s.registry.next_id == 0)) [
        | inl z ↦ rw (q, z) h
        | inr z ↦ elim (Option-cases (fill s.registry.entries new)) [
          | inl f ↦ rw (q, z, f) h
          | inr (es, f) ↦
              rw (q, z, f)
                (record {
                  hold = register-AllHold s.registry.entries es new s.pending f h.hold;
                  apart = h.apart;
                })
        ]
      ]
    ]

begin-Safe :
    (id : ℕ) (f : Found) (s : System)
    → (select s.registry.entries id).0 ≡ f
    → Safe s
    → Safe (step s (begins id))
unfolding step begin_dispatch
begin-Safe id missing s e h = rw (e, step, begin_dispatch) h
begin-Safe id in_dispatch s e h = rw (e, step, begin_dispatch) h
begin-Safe id (selected i) s e h =
    let es = s.registry.entries in
    let its = select_its es id i e in
    let apart = inactive-Apart es i s.pending its.1 h.hold in
    let t = (entry es i).topic in
    let present : t ≢ 0 = ground (arith, its.0) in
    rw (e, step, begin_dispatch)
      (record {
        hold = (
          ground (arith, its.2),
          others-AllHold es (select es id).1 i s.pending (λ j n. select_others es id i j e n) apart
              h.hold,
        );
        apart = (apart, h.apart);
      })

end-Safe : (k : ℕ) (s : System) → Safe s → Safe (step s (ends k))
unfolding step finish
end-Safe k s h = elim (Option-cases (pick s.pending k)) [
  | inl n ↦ rw (n, step) h
  | inr ((p, ps), n) ↦
      let a = pick-AllApart s.pending k n h.apart in
      let es' = at s.registry.entries p.index (λ e. record e { active = false }) in
      rw (n, step)
        (record {
          hold =
              others-AllHold s.registry.entries es' p.index ps
                (λ j q. at-entry s.registry.entries p.index j _ q) a.1
                (pick-AllHold s.registry.entries s.pending k n h.hold);
          apart = a.0;
        })
]

step-Safe : (e : Event) (s : System) → Safe s → Safe (step s e)
unfolding step unregister_topic
step-Safe (registers topic) s h = register-Safe topic s h
step-Safe (unregisters id) s h = record {
  hold = remove-AllHold s.registry.entries id s.pending h.hold;
  apart = h.apart;
}
step-Safe (begins id) s h = begin-Safe id (select s.registry.entries id).0 s refl h
step-Safe (ends k) s h = end-Safe k s h

pub run-Safe : (es : List Event) (s : System) → Safe s → Safe (run s es)
unfolding run
run-Safe [] s h = h
run-Safe (e ∷ es) s h = run-Safe es (step s e) (step-Safe e s h)

abbrev pub fresh_system : ℕ → System
fresh_system max_topics = record { registry = fresh max_topics; pending = [] }

-- However threads register, unregister and dispatch topics, between the two locks of a dispatch its entry
-- keeps the topic that it had when it was selected, and stays active, and no other dispatch has it.
pub dispatch-Safe : (es : List Event) (max_topics : ℕ) → Safe (run (fresh_system max_topics) es)
dispatch-Safe es max_topics =
    run-Safe es (fresh_system max_topics) (record { hold = tt; apart = tt })
