-- ===== src/ThreadLocal.antt =====
-- include/osal/thread_local_data.hpp: keys that are shared by the threads, and what each thread keeps under
-- a key. The value of a pointer is a number, and null is 0; OSAL_THREAD_LOCAL_MAX_KEYS is at most 32.
pub mod Spec
pub mod Refine
mod Tests
use micr_osal.Common.{
  ℕ, zero, suc, ◌+◌, ◌%◌, ◌^◌, List, [], ◌∷◌, Option, none, some, Bool, true, false, ltb, leb, ◌==◌,
  if◌then◌else◌, length, replicate, get_or,
}
use micr_osal.Error.{Result, ok, not_initialized}
use micr_osal.Clock.{ℤ, pos, negsuc}
use micr_osal.Slots.{acquire, release}

-- A table with one entry changed.
abbrev pub put {ℓ} : {A : Type ℓ} → (ℕ → A) → ℕ → A → ℕ → A
put f k x j = if j == k then x else f j

-- tls_registry and tls_storage: the mask of the keys in use, the generation of each key, and for each
-- thread its values and the generations it saw when it stored them.
pub record Storage : Type 0 where
  pub used : List Bool
  pub generations : ℕ → ℕ
  pub values : ℕ → ℕ → ℕ
  pub generations_seen : ℕ → ℕ → ℕ

abbrev pub fresh : ℕ → Storage
fresh k_max_keys = record {
  used = replicate k_max_keys false;
  generations = λ k. 0;
  values = λ t k. 0;
  generations_seen = λ t k. 0;
}

-- generations()[key].fetch_add(1U), on 32 bits
abbrev pub bumped : Storage → ℕ → Storage
bumped s key = record s { generations = put s.generations key ((s.generations key + 1) % 2 ^ 32) }

-- The first step of tls_registry::acquire, which takes the lowest clear bit of the mask, and the call.
unfoldable pub take_bit : Storage → Option (ℕ × Storage)
take_bit s = elim (acquire s.used) [
  | none ↦ none
  | some (i, used) ↦ some (i, record s { used = used })
]

unfoldable pub acquire_key : Storage → Option (ℕ × Storage)
unfolding take_bit
acquire_key s = elim (take_bit s) [ none ↦ none | some (i, s') ↦ some (i, bumped s' i) ]

-- The first step of tls_registry::release, which clears the bit, and the call.
unfoldable pub clear_bit : Storage → ℕ → Storage
clear_bit s key = record s { used = release s.used key }

unfoldable pub release_key : Storage → ℕ → Storage
unfolding clear_bit
release_key s key = if leb (length s.used) key then s else bumped (clear_bit s key) key

-- tls_registry::generation
unfoldable pub generation : Storage → ℕ → ℕ
generation s key = if leb (length s.used) key then 0 else s.generations key

-- tls_storage::set and tls_storage::get of a thread, and of a slot of baremetal_tls_storage
unfoldable pub store : Storage → ℕ → ℕ → ℕ → Storage
unfolding generation
store s thread key value = if leb (length s.used) key then s else record s {
  values = put s.values thread (put (s.values thread) key value);
  generations_seen =
      put s.generations_seen thread (put (s.generations_seen thread) key (generation s key));
}

unfoldable pub load : Storage → ℕ → ℕ → ℕ
unfolding generation
load s thread key =
    if leb (length s.used) key
    then 0
    else if s.generations_seen thread key == generation s key
    then s.values thread key
    else 0

-- baremetal_tls_storage::current_slot, with what osal_baremetal_current_task_index gives
unfoldable pub current_slot : ℕ → ℤ → ℕ
current_slot max_tasks (negsuc n) = 0
current_slot max_tasks (pos n) = if ltb (n + 1) (max_tasks + 1) then n + 1 else 0

-- thread_local_data: its key, when it is valid
abbrev pub Local : Type 0
Local = Option ℕ

-- Its constructor and destructor, set and get.
unfoldable pub create : Storage → Local × Storage
unfolding acquire_key
create s = elim (acquire_key s) [ none ↦ (none, s) | some (i, s') ↦ (some i, s') ]

unfoldable pub destroy : Storage → Local → Storage
unfolding release_key
destroy s none = s
destroy s (some key) = release_key s key

unfoldable pub set_value : Storage → Local → ℕ → ℕ → Result × Storage
unfolding store
set_value s none thread value = (not_initialized, s)
set_value s (some key) thread value = (ok, store s thread key value)

unfoldable pub get_value : Storage → Local → ℕ → ℕ
unfolding load
get_value s none thread = 0
get_value s (some key) thread = load s thread key
