-- ===== src/StreamBuffer.antt =====
-- src/common/emulated_stream_buffer.inl: a byte stream over the ring, with a trigger level and two
-- binary semaphores. A call takes the object behind its handle, `none` for a null or uninitialised
-- handle, and returns it beside its result.
pub mod Spec
pub mod Refine
pub mod Blocking
pub mod Pool
mod Tests
use Spec
use micr_osal.Common.{
  ℕ, List, [], ◌∷◌, Option, none, some, Bool, true, false, ltb, leb, ◌==◌, ◌||◌, not, if◌then◌else◌,
  length, min,
}
use micr_osal.Error.{Result, ok, timeout, not_initialized, invalid_argument}
use micr_osal.Semaphore.{Semaphore, give, after_take}
use micr_osal.Tick.{no_wait, expired}
use micr_osal.ByteRing.{ByteRing}
use micr_osal.ByteRing

-- emu_sb_obj
pub record StreamBuffer : Type 0 where
  pub ring : ByteRing
  pub trigger : ℕ
  pub data_sem : Semaphore
  pub space_sem : Semaphore

-- The stores of a send that fits: the bytes, and the token that wakes the consumer.
unfoldable pub put : StreamBuffer → List ℕ → StreamBuffer
put s bytes = record s {
  ring = ByteRing.write s.ring bytes (length bytes);
  data_sem = (give s.data_sem).1;
}

-- The stores of a receive: the bytes read, and the token that wakes the producer.
unfoldable pub get : StreamBuffer → ℕ → List ℕ × StreamBuffer
get s max_len =
    let n = min (ByteRing.available s.ring) max_len in
    let (bytes, ring') = ByteRing.read s.ring n in
    (bytes, record s { ring = ring'; space_sem = (give s.space_sem).1 })

-- osal_stream_buffer_send_isr; the length is that of the data.
unfoldable pub send_isr : Option StreamBuffer → Option (List ℕ) → Result × Option StreamBuffer
send_isr none src = (not_initialized, none)
send_isr (some s) none = (invalid_argument, some s)
send_isr (some s) (some bytes) =
    if length bytes == 0
    then (invalid_argument, some s)
    else if ltb (ByteRing.free s.ring) (length bytes)
    then (timeout, some s)
    else (ok, some (put s bytes))

-- osal_stream_buffer_receive_isr: the bytes that went to `buf`, whose number is returned.
unfoldable pub receive_isr : Option StreamBuffer → Bool → ℕ → List ℕ × Option StreamBuffer
receive_isr none buf max_len = ([], none)
receive_isr (some s) buf max_len =
    if not buf || max_len == 0
    then ([], some s)
    else if ltb (ByteRing.available s.ring) s.trigger
    then ([], some s)
    else let (bytes, s') = get s max_len in (bytes, some s')

-- osal_stream_buffer_available
unfoldable pub available : Option StreamBuffer → ℕ
available none = 0
available (some s) = ByteRing.available s.ring

-- osal_stream_buffer_free_space
unfoldable pub free_space : Option StreamBuffer → ℕ
free_space none = 0
free_space (some s) = ByteRing.free s.ring

-- osal_stream_buffer_reset
unfoldable pub reset : Option StreamBuffer → Result × Option StreamBuffer
reset none = (not_initialized, none)
reset (some s) = (ok, some (record s { ring = ByteRing.flush s.ring }))

-- One round of a blocked call: what osal_clock_ticks gives, and what the other threads do to the
-- buffer until the semaphore's take comes back.
pub record Wake : Type 0 where
  pub now : ℕ
  pub others : StreamBuffer → StreamBuffer

unfoldable pub wait_space : Wake → StreamBuffer → StreamBuffer
wait_space w s = let s' = w.others s in record s' { space_sem = after_take s'.space_sem }

unfoldable pub wait_data : Wake → StreamBuffer → StreamBuffer
wait_data w s = let s' = w.others s in record s' { data_sem = after_take s'.data_sem }

-- The loop of osal_stream_buffer_send over the rounds it waits; `none` while it is still blocked.
unfoldable pub send_loop :
    List ℕ → ℕ → ℕ → StreamBuffer → List Wake → Option (Result × StreamBuffer)
send_loop bytes ticks start s [] =
    if leb (length bytes) (ByteRing.free s.ring)
    then some (ok, put s bytes)
    else if ticks == no_wait
    then some (timeout, s)
    else none
send_loop bytes ticks start s (w ∷ ws) =
    let rest = send_loop bytes ticks start (wait_space w s) ws in
    if leb (length bytes) (ByteRing.free s.ring)
    then some (ok, put s bytes)
    else if ticks == no_wait
    then some (timeout, s)
    else if expired ticks start w.now
    then some (timeout, s)
    else rest

abbrev pub returned {ℓ} :
    {A : Type ℓ} → Option (A × StreamBuffer) → Option (A × Option StreamBuffer)
returned none = none
returned (some (a, s)) = some (a, some s)

-- osal_stream_buffer_send
unfoldable pub send :
    Option StreamBuffer
    → Option (List ℕ)
    → ℕ
    → ℕ
    → List Wake
    → Option (Result × Option StreamBuffer)
send none src ticks start ws = some (not_initialized, none)
send (some s) none ticks start ws = some (invalid_argument, some s)
send (some s) (some bytes) ticks start ws =
    if length bytes == 0
    then some (invalid_argument, some s)
    else if ltb s.ring.capacity (length bytes)
    then some (invalid_argument, some s)
    else returned (send_loop bytes ticks start s ws)

-- The loop of osal_stream_buffer_receive.
unfoldable pub receive_loop : ℕ → ℕ → ℕ → StreamBuffer → List Wake → Option (List ℕ × StreamBuffer)
receive_loop max_len ticks start s [] =
    if leb s.trigger (ByteRing.available s.ring)
    then some (get s max_len)
    else if ticks == no_wait
    then some ([], s)
    else none
receive_loop max_len ticks start s (w ∷ ws) =
    let rest = receive_loop max_len ticks start (wait_data w s) ws in
    if leb s.trigger (ByteRing.available s.ring)
    then some (get s max_len)
    else if ticks == no_wait
    then some ([], s)
    else if expired ticks start w.now
    then some ([], s)
    else rest

-- osal_stream_buffer_receive
unfoldable pub receive :
    Option StreamBuffer → Bool → ℕ → ℕ → ℕ → List Wake → Option (List ℕ × Option StreamBuffer)
receive none buf max_len ticks start ws = some ([], none)
receive (some s) buf max_len ticks start ws =
    if not buf || max_len == 0
    then some ([], some s)
    else returned (receive_loop max_len ticks start s ws)

-- A client that does not block, call after call.
unfoldable pub step : Option StreamBuffer → Spec.Call → Spec.Reply × Option StreamBuffer
step h (Spec.sends bytes) = let (r, h') = send_isr h (some bytes) in (Spec.answered r, h')
step h (Spec.receives max_len) =
    let (bytes, h') = receive_isr h true max_len in (Spec.delivered bytes, h')
step h Spec.resets = let (r, h') = reset h in (Spec.answered r, h')
step h Spec.asks = (Spec.state (available h) (free_space h), h)

unfoldable pub run : Option StreamBuffer → List Spec.Call → List Spec.Reply
run h [] = []
run h (c ∷ cs) = let (reply, h') = step h c in reply ∷ run h' cs
