-- ===== src/MessageBuffer/Blocking.antt =====
-- src/common/emulated_message_buffer.inl: osal_message_buffer_send and osal_message_buffer_receive,
-- over whatever the other threads do while they wait.
pub mod Send
pub mod Receive
mod Tests
use micr_osal.Common.{
  ℕ, ◌+◌, ◌-◌, ◌≤◌, ◌<◌, ◌≡◌, ◌≢◌, ◌^◌, refl, sym, ap, ap₂, ◌∙◌, ◌⊎◌, inl, inr, List, [], ◌∷◌, ◌++◌,
  Option, none, some, Bool, true, arith, ltb, leb, ◌==◌, ◌||◌, not, if◌then◌else◌, length, take,
  min, add_size, Option-cases, Bool-cases, ==→eq, ltb→lt, ltb→le, leb→le, leb→lt, le→leb, ne→==,
  some-eq, none-ne, some_of_ne_none, length-take,
}
use micr_osal.Error.{Result, ok, timeout, not_initialized, invalid_argument}
use micr_osal.Semaphore.{Semaphore, give, after_take}
use micr_osal.Tick.{no_wait}
use micr_osal.ByteRing
use micr_osal.ByteRing.Laws.{free_lem}
use micr_osal.Wait.{
  Round, AllSteady, Passed, Seen, wait_until, wait_until_ends, wait_until-ne-none, Ended,
  Seen-keeps,
}
use micr_osal.MessageBuffer.{MessageBuffer, k_msg_header_bytes, put, next_len, consume}
use micr_osal.MessageBuffer.Spec
use micr_osal.MessageBuffer.Frame.{next_len-frame, next_len-empty, consume-frame}
use micr_osal.MessageBuffer.Refine.{Holds, frames, put-Holds, available-size}

-- A round of the send's loop that finds room.
unfoldable pub try_send : List ℕ → MessageBuffer → Option (Result × MessageBuffer)
try_send msg s =
    if leb (add_size k_msg_header_bytes (length msg)) (ByteRing.free s.ring)
    then some (ok, put s msg)
    else none

unfoldable pub wait_space : Round MessageBuffer → MessageBuffer → MessageBuffer
wait_space w s = let s' = w.others s in record s' { space_sem = after_take s'.space_sem }

unfoldable pub wait_data : Round MessageBuffer → MessageBuffer → MessageBuffer
wait_data w s = let s' = w.others s in record s' { data_sem = after_take s'.data_sem }

abbrev pub returned : {A : Type 0} → Option (A × MessageBuffer) → Option (A × Option MessageBuffer)
returned none = none
returned (some (a, s)) = some (a, some s)

-- osal_message_buffer_send
unfoldable pub send :
    Option MessageBuffer
    → Option (List ℕ)
    → ℕ
    → ℕ
    → List (Round MessageBuffer)
    → Option (Result × Option MessageBuffer)
send none src ticks start ws = some (not_initialized, none)
send (some s) none ticks start ws = some (invalid_argument, some s)
send (some s) (some msg) ticks start ws =
    if length msg == 0
    then some (invalid_argument, some s)
    else if ltb (2 ^ 16 - 1) (length msg)
    then some (invalid_argument, some s)
    else if ltb s.ring.capacity (add_size k_msg_header_bytes (length msg))
    then some (invalid_argument, some s)
    else returned (wait_until (try_send msg) timeout wait_space ticks start s ws)

-- What a receive leaves of the tokens: one for the producer, and one for the consumer if more is
-- there.
abbrev pub rearmed : MessageBuffer → MessageBuffer
rearmed s =
    let s' = record s { space_sem = (give s.space_sem).1 } in
    if leb k_msg_header_bytes (ByteRing.available s.ring)
    then record s' { data_sem = (give s.data_sem).1 }
    else s'

-- A round of the receive's loop that finds a whole message.
unfoldable pub try_receive : ℕ → MessageBuffer → Option ((ℕ × List ℕ) × MessageBuffer)
try_receive max_len s = elim (next_len s.ring) [
  | none ↦ none
  | some len ↦
      let (bytes, ring') = consume s.ring len max_len in
      some ((min len max_len, bytes), rearmed (record s { ring = ring' }))
]

-- osal_message_buffer_receive: the count that it returns, and the bytes that went to `buf`.
unfoldable pub receive :
    Option MessageBuffer
    → Bool
    → ℕ
    → ℕ
    → ℕ
    → List (Round MessageBuffer)
    → Option ((ℕ × List ℕ) × Option MessageBuffer)
receive none buf max_len ticks start ws = some ((0, []), none)
receive (some s) buf max_len ticks start ws =
    if not buf || max_len == 0
    then some ((0, []), some s)
    else returned (wait_until (try_receive max_len) (0, []) wait_data ticks start s ws)

-- The buffer holds some messages, and its semaphores are binary.
pub record Sound (s : MessageBuffer) : Type 0 where
  pub messages : List (List ℕ)
  pub holds : Holds s messages
  pub data_binary : s.data_sem.max_count ≡ 1
  pub space_binary : s.space_sem.max_count ≡ 1

pub wait_space-Sound :
    (w : Round MessageBuffer) (s : MessageBuffer) → Sound (w.others s) → Sound (wait_space w s)
unfolding wait_space
wait_space-Sound w s v = record {
  messages = v.messages;
  holds = record { ring_ok = v.holds.ring_ok; short = v.holds.short; framed = v.holds.framed };
  data_binary = v.data_binary;
  space_binary = ground (arith, v.space_binary);
}

pub wait_data-Sound :
    (w : Round MessageBuffer) (s : MessageBuffer) → Sound (w.others s) → Sound (wait_data w s)
unfolding wait_data
wait_data-Sound w s v = record {
  messages = v.messages;
  holds = record { ring_ok = v.holds.ring_ok; short = v.holds.short; framed = v.holds.framed };
  data_binary = ground (arith, v.data_binary);
  space_binary = v.space_binary;
}

pub token : (m : Semaphore) → m.max_count ≡ 1 → 0 < (give m).1.count
unfolding give
token m e = ground arith

pub returned-eq_some :
    {A : Type 0} (o : Option (A × MessageBuffer)) {a : A} {h : Option MessageBuffer}
    → returned o ≡ some (a, h)
    → (s' : MessageBuffer) × (o ≡ some (a, s')) × (h ≡ some s')
returned-eq_some none e = none-ne e
returned-eq_some (some (b, s')) e =
    let p = some-eq e in (s', ap (λ x. some (x.0, s')) p, ap (λ x. x.1) (sym p))
