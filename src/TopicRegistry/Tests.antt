-- ===== src/TopicRegistry/Tests.antt =====
-- Concrete runs of a registry of topics.
use micr_osal.Common.{◌≡◌, refl, List, [], ◌∷◌, true}
use micr_osal.TopicRegistry.{
  delivered, not_found, Registry, fresh, register_topic, unregister_topic, dispatch, fill,
  is_registered, remove, select, finish, at,
}
use micr_osal.TopicRegistry.Threads.{Event, registers, unregisters, begins, ends, run}
use micr_osal.TopicRegistry.Dispatch.{fresh_system, Safe, dispatch-Safe}

-- A topic is registered, and while a value is dispatched to it, it is unregistered, and another is
-- registered and dispatched to.
abbrev two_topics : List Event
two_topics = registers 7 ∷ begins 1 ∷ unregisters 1 ∷ registers 8 ∷ begins 2 ∷ ends 1 ∷ []

dispatch-Safe_example : Safe (run (fresh_system 2) two_topics)
dispatch-Safe_example = dispatch-Safe two_topics 2

-- Topic 7 is registered under 1, is then found, and is busy for a dispatch from its own publish.
abbrev with_topic : Registry
with_topic = (register_topic (fresh 2) 7).1

nested_dispatch :
    ((register_topic (fresh 2) 7).0 ≡ 1)
    × ((dispatch true with_topic 1 (λ i r. (true, r))).0 ≡ delivered)
    × ((dispatch true with_topic 1 (λ i r. (true, (unregister_topic r 1).1))).1 ≡ with_topic)
    × ((unregister_topic with_topic 1).0 ≡ delivered)
    × ((unregister_topic with_topic 2).0 ≡ not_found)
unfolding register_topic dispatch unregister_topic fill is_registered remove select finish at
nested_dispatch = (refl, refl, refl, refl, refl)
