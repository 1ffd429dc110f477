-- ===== src/ThreadLocal/Spec.antt =====
-- The calls of threads on thread-local objects, and the table that stands for them.
use micr_osal.Common.{ℕ, List, [], ◌∷◌, none, some, Bool, false, if◌then◌else◌, get_or, set}
use micr_osal.Slots.{acquire}
use micr_osal.Error.{Result, ok}
use micr_osal.ThreadLocal.{put, Storage, Local, create, destroy, set_value, get_value}

-- Threads make and destroy objects, and set and get their values; an object that is not valid, and so has
-- no key, takes part in none of these.
pub data Call : Type 0 where
  creates : Call
  destroys : ℕ → Call
  sets : ℕ → ℕ → ℕ → Call
  gets : ℕ → ℕ → Call

pub data Reply : Type 0 where
  made : Local → Reply
  returned : Result → Reply
  value : ℕ → Reply
  no_reply : Reply

-- Whether a key is that of an object that exists.
abbrev pub exists : List Bool → ℕ → Bool
exists used key = get_or used key false

-- A call on an object that does not exist is not made.
unfoldable pub call : Storage → Call → Reply × Storage
unfolding create destroy set_value get_value
call s creates = let (h, s') = create s in (made h, s')
call s (destroys key) =
    if exists s.used key then (no_reply, destroy s (some key)) else (no_reply, s)
call s (sets key thread x) =
    let (r, s') = set_value s (some key) thread x in
    if exists s.used key then (returned r, s') else (no_reply, s)
call s (gets key thread) =
    if exists s.used key then (value (get_value s (some key) thread), s) else (no_reply, s)

unfoldable pub replies : Storage → List Call → List Reply
unfolding call
replies s [] = []
replies s (c ∷ cs) = (call s c).0 ∷ replies (call s c).1 cs

-- The keys in use, and what each thread holds under each of them.
pub record Table : Type 0 where
  pub keys : List Bool
  pub held : ℕ → ℕ → ℕ

-- A new key is the lowest free one, and no thread holds anything under it.
unfoldable pub spec_call : Table → Call → Reply × Table
spec_call m creates = elim (acquire m.keys) [
  | none ↦ (made none, m)
  | some (i, keys) ↦ (made (some i), record { keys = keys; held = λ t. put (m.held t) i 0 })
]
spec_call m (destroys key) =
    if exists m.keys key
    then (no_reply, record m { keys = set m.keys key false })
    else (no_reply, m)
spec_call m (sets key thread x) =
    if exists m.keys key
    then (returned ok, record m { held = put m.held thread (put (m.held thread) key x) })
    else (no_reply, m)
spec_call m (gets key thread) =
    if exists m.keys key then (value (m.held thread key), m) else (no_reply, m)

unfoldable pub spec_replies : Table → List Call → List Reply
unfolding spec_call
spec_replies m [] = []
spec_replies m (c ∷ cs) = (spec_call m c).0 ∷ spec_replies (spec_call m c).1 cs
