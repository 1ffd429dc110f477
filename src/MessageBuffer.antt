-- ===== src/MessageBuffer.antt =====
-- src/common/emulated_message_buffer.inl: messages over the byte ring, each behind its length in two
-- bytes, the lower one first. A call takes the object behind its handle, `none` for a null or
-- uninitialised handle, and returns it beside its result.
pub mod Spec
pub mod Frame
pub mod Refine
pub mod Header
pub mod Blocking
pub mod Pool
mod Tests
use Spec
use micr_osal.Common.{
  ℕ, ◌+◌, ◌*◌, ◌/◌, ◌%◌, ◌^◌, List, [], ◌∷◌, Option, none, some, Bool, true, ltb, leb, ◌==◌, ◌||◌,
  not, if◌then◌else◌, length, get_or, min, add_size, sub_size,
}
use micr_osal.Error.{Result, ok, timeout, not_initialized, invalid_argument}
use micr_osal.Semaphore.{Semaphore, give}
use micr_osal.Ring.{advance_index, copy_in}
use micr_osal.ByteRing.{ByteRing}
use micr_osal.ByteRing

-- kMsgHeaderBytes
abbrev pub k_msg_header_bytes : ℕ
k_msg_header_bytes = 2

-- The two bytes of an osal_mb_length_t that a length was cast to.
abbrev pub header : ℕ → List ℕ
header len = let hdr = len % 2 ^ 16 in (hdr % 256) ∷ (hdr / 256) ∷ []

-- The length that two bytes hold.
abbrev pub msg_len : List ℕ → ℕ
msg_len bytes = get_or bytes 0 0 + get_or bytes 1 0 * 256

-- emu_mb_obj
pub record MessageBuffer : Type 0 where
  pub ring : ByteRing
  pub data_sem : Semaphore
  pub space_sem : Semaphore

-- emu_mb_write_frame
unfoldable pub write_frame : ByteRing → List ℕ → ℕ → List ℕ → ℕ → ByteRing
write_frame s hdr header_len payload payload_len =
    let head = s.ring.head in
    let buf = copy_in s.ring_size s.ring.buf head hdr header_len in
    let after = advance_index head header_len s.ring_size in
    record s {
      ring = record (s.ring) {
        buf = copy_in s.ring_size buf after payload payload_len;
        head = advance_index head (add_size header_len payload_len) s.ring_size;
      };
    }

-- The stores of a send that fits: the frame, and the token that wakes the consumer.
unfoldable pub put : MessageBuffer → List ℕ → MessageBuffer
put s msg = record s {
  ring = write_frame s.ring (header (length msg)) k_msg_header_bytes msg (length msg);
  data_sem = (give s.data_sem).1;
}

-- osal_message_buffer_send_isr; the length is that of the message.
unfoldable pub send_isr : Option MessageBuffer → Option (List ℕ) → Result × Option MessageBuffer
send_isr none src = (not_initialized, none)
send_isr (some s) none = (invalid_argument, some s)
send_isr (some s) (some msg) =
    if length msg == 0
    then (invalid_argument, some s)
    else if ltb (ByteRing.free s.ring) (add_size k_msg_header_bytes (length msg))
    then (timeout, some s)
    else (ok, some (put s msg))

-- The length of the message at the front, if all of its frame is there.
unfoldable pub next_len : ByteRing → Option ℕ
next_len r =
    let avail = ByteRing.available r in
    let len = msg_len (ByteRing.peek r k_msg_header_bytes) in
    if ltb avail k_msg_header_bytes
    then none
    else if ltb avail (add_size k_msg_header_bytes len)
    then none
    else some len

-- The reads that take a message of `len` bytes off the ring: what goes to `buf`, and the ring after.
unfoldable pub consume : ByteRing → ℕ → ℕ → List ℕ × ByteRing
consume r len max_len =
    let body = ByteRing.skip r k_msg_header_bytes in
    let (start, rest) = ByteRing.read body max_len in
    if leb len max_len
    then ByteRing.read body len
    else (start, ByteRing.skip rest (sub_size len max_len))

-- osal_message_buffer_receive_isr: the count that it returns, and the bytes that went to `buf`.
unfoldable pub receive_isr : Option MessageBuffer → Bool → ℕ → (ℕ × List ℕ) × Option MessageBuffer
receive_isr none buf max_len = ((0, []), none)
receive_isr (some s) buf max_len =
    if not buf || max_len == 0 then ((0, []), some s) else elim (next_len s.ring) [
      | none ↦ ((0, []), some s)
      | some len ↦
          let (bytes, ring') = consume s.ring len max_len in
          (
            (min len max_len, bytes),
            some (record s { ring = ring'; space_sem = (give s.space_sem).1 }),
          )
    ]

-- osal_message_buffer_available
unfoldable pub available : Option MessageBuffer → ℕ
available none = 0
available (some s) = elim (next_len s.ring) [ none ↦ 0 | some len ↦ len ]

-- osal_message_buffer_free_space
unfoldable pub free_space : Option MessageBuffer → ℕ
free_space none = 0
free_space (some s) =
    let f = ByteRing.free s.ring in
    if ltb k_msg_header_bytes f then sub_size f k_msg_header_bytes else 0

-- osal_message_buffer_reset
unfoldable pub reset : Option MessageBuffer → Result × Option MessageBuffer
reset none = (not_initialized, none)
reset (some s) = (ok, some (record s { ring = ByteRing.flush s.ring }))

-- A client that does not block, call after call.
unfoldable pub step : Option MessageBuffer → Spec.Call → Spec.Reply × Option MessageBuffer
step h (Spec.sends msg) = let (r, h') = send_isr h (some msg) in (Spec.answered r, h')
step h (Spec.receives max_len) =
    let ((n, bytes), h') = receive_isr h true max_len in (Spec.delivered n bytes, h')
step h Spec.resets = let (r, h') = reset h in (Spec.answered r, h')
step h Spec.asks = (Spec.state (available h) (free_space h), h)

unfoldable pub run : Option MessageBuffer → List Spec.Call → List Spec.Reply
run h [] = []
run h (c ∷ cs) = let (reply, h') = step h c in reply ∷ run h' cs
