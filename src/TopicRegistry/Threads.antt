-- ===== src/TopicRegistry/Threads.antt =====
-- Threads that register, unregister and dispatch topics, one lock of a dispatch in each step.
use micr_osal.Common.{ℕ, zero, suc, List, [], ◌∷◌, Option, none, some}
use micr_osal.TopicRegistry.{
  Registry, register_topic, unregister_topic, missing, in_dispatch, selected, select, finish,
}
use micr_osal.TopicRegistry.Entries.{entry}

-- A dispatch between its two locks: the entry it selected, and the topic that was in it then.
pub record Pending : Type 0 where
  pub index : ℕ
  pub topic : ℕ

pub record System : Type 0 where
  pub registry : Registry
  pub pending : List Pending

pub data Event : Type 0 where
  registers unregisters begins ends : ℕ → Event

-- The pending dispatch at `k`, and the others.
unfoldable pub pick : List Pending → ℕ → Option (Pending × List Pending)
pick [] k = none
pick (p ∷ ps) zero = some (p, ps)
pick (p ∷ ps) (suc k) = elim (pick ps k) [ none ↦ none | some (q, qs) ↦ some (q, p ∷ qs) ]

-- The first lock of dispatch.
unfoldable pub begin_dispatch : System → ℕ → System
begin_dispatch s id =
    let (f, es) = select s.registry.entries id in
    (elim f [
      | missing ↦ s
      | in_dispatch ↦ s
      | selected i ↦ record {
        registry = record s.registry { entries = es };
        pending = record { index = i; topic = (entry s.registry.entries i).topic } ∷ s.pending;
      }
    ])

unfoldable pub step : System → Event → System
unfolding begin_dispatch
step s (registers topic) = record s { registry = (register_topic s.registry topic).1 }
step s (unregisters id) = record s { registry = (unregister_topic s.registry id).1 }
step s (begins id) = begin_dispatch s id
step s (ends k) = elim (pick s.pending k) [
  | none ↦ s
  | some (p, ps) ↦ record { registry = finish s.registry p.index; pending = ps }
]

unfoldable pub run : System → List Event → System
unfolding step
run s [] = s
run s (e ∷ es) = run (step s e) es
