-- ===== src/TopicRegistry.antt =====
-- include/osal/bus/topic_registry.hpp: topics registered under numbers, and the dispatch of a value to one,
-- which holds the mutex only before and after the topic's own publish.
pub mod Entries
pub mod Threads
pub mod Dispatch
mod Tests
use micr_osal.Common.{
  ℕ, zero, suc, ◌+◌, ◌%◌, ◌^◌, List, [], ◌∷◌, Option, none, some, Bool, true, false, ◌==◌, ◌&&◌,
  ◌||◌, not, if◌then◌else◌, replicate,
}

-- route_status
pub data RouteStatus : Type 0 where
  delivered no_subscribers not_found busy invalid : RouteStatus

-- entry_type, with the address of its topic; a null address is 0, as is invalid_signal_id.
pub record Entry : Type 0 where
  pub topic : ℕ
  pub id : ℕ
  pub active : Bool

pub record Registry : Type 0 where
  pub entries : List Entry
  pub next_id : ℕ

abbrev pub empty_entry : Entry
empty_entry = record { topic = 0; id = 0; active = false }

-- A new registry of `max_topics` entries.
abbrev pub fresh : ℕ → Registry
fresh max_topics = record { entries = replicate max_topics empty_entry; next_id = 1 }

-- Whether a topic is registered.
unfoldable pub is_registered : List Entry → ℕ → Bool
is_registered [] topic = false
is_registered (e ∷ es) topic = e.topic == topic || is_registered es topic

-- The first empty entry becomes the topic's.
unfoldable pub fill : List Entry → Entry → Option (List Entry)
fill [] new = none
fill (e ∷ es) new =
    let rest = fill es new in
    if e.topic == 0
    then some (new ∷ es)
    else (elim rest [ none ↦ none | some es' ↦ some (e ∷ es') ])

-- register_topic: the number, or 0 when it fails. `topic` is not null, as it is the address of an object.
unfoldable pub register_topic : Registry → ℕ → ℕ × Registry
unfolding fill is_registered
register_topic r topic =
    let new : Entry = record { topic = topic; id = r.next_id; active = false } in
    if is_registered r.entries topic
    then (0, r)
    else if r.next_id == 0
    then (0, r)
    else (elim (fill r.entries new) [
      | none ↦ (0, r)
      | some es ↦ (r.next_id, record { entries = es; next_id = (r.next_id + 1) % 2 ^ 32 })
    ])

-- Whether an entry is the one of a number.
abbrev pub is_of : ℕ → Entry → Bool
is_of id e = not (e.topic == 0) && e.id == id

-- The loop of unregister_topic.
unfoldable pub remove : List Entry → ℕ → RouteStatus × List Entry
remove [] id = (not_found, [])
remove (e ∷ es) id =
    let (st, es') = remove es id in
    if is_of id e
    then (if e.active then (busy, e ∷ es) else (delivered, empty_entry ∷ es))
    else (st, e ∷ es')

unfoldable pub unregister_topic : Registry → ℕ → RouteStatus × Registry
unfolding remove
unregister_topic r id = let (st, es) = remove r.entries id in (st, record r { entries = es })

-- What the first lock of dispatch finds.
pub data Found : Type 0 where
  missing in_dispatch : Found
  selected : ℕ → Found

abbrev pub next_found : Found → Found
next_found (selected i) = selected (i + 1)
next_found f = f

-- The loop of dispatch, which marks the entry it selects.
unfoldable pub select : List Entry → ℕ → Found × List Entry
select [] id = (missing, [])
select (e ∷ es) id =
    let (f, es') = select es id in
    if is_of id e
    then (if e.active then (in_dispatch, e ∷ es) else (selected 0, record e { active = true } ∷ es))
    else (next_found f, e ∷ es')

-- The entry at `i` changed by `f`.
unfoldable pub at : List Entry → ℕ → (Entry → Entry) → List Entry
at [] i f = []
at (e ∷ es) zero f = f e ∷ es
at (e ∷ es) (suc i) f = e ∷ at es i f

-- The second lock of dispatch.
unfoldable pub finish : Registry → ℕ → Registry
unfolding at
finish r i = record r { entries = at r.entries i (λ e. record e { active = false }) }

-- A dispatch whose topic changes the registry by `publish` and accepts the value or not; `valid` is that of
-- the mutex.
unfoldable pub dispatch :
    Bool → Registry → ℕ → (ℕ → Registry → Bool × Registry) → RouteStatus × Registry
unfolding select finish
dispatch false r id publish = (invalid, r)
dispatch true r id publish =
    let (f, es) = select r.entries id in
    let locked : Registry = record r { entries = es } in
    (elim f [
      | missing ↦ (not_found, r)
      | in_dispatch ↦ (busy, r)
      | selected i ↦
          let (accepted, r') = publish i locked in
          (if accepted then delivered else no_subscribers, finish r' i)
    ])
