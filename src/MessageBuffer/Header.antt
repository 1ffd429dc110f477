-- ===== src/MessageBuffer/Header.antt =====
-- osal_message_buffer_send_isr does not test that a length fits in osal_mb_length_t, as
-- osal_message_buffer_send does.
use micr_osal.Common.{
  ℕ, ◌+◌, ◌/◌, ◌%◌, ◌^◌, ◌≤◌, ◌<◌, ◌≡◌, ◌≢◌, refl, sym, ap, ap₂, ◌∙◌, List, [], ◌∷◌, ◌++◌, Option,
  none, some, true, arith, length, take, drop, le→ltb, ne→==, add_size, take-append-drop,
  length-take,
}
use micr_osal.Error.{ok}
use micr_osal.ByteRing
use micr_osal.ByteRing.Laws
use micr_osal.ByteRing.Laws.{bytes, free_lem}
use micr_osal.MessageBuffer.{MessageBuffer, header, put, send_isr, receive_isr, available}
use micr_osal.MessageBuffer.Frame.{frame, bytes-write_frame, next_len-frame, consume-frame}
use micr_osal.MessageBuffer.Refine.{Holds, free-size}

-- The bytes behind a handle, oldest first.
abbrev pub held_by : Option MessageBuffer → List ℕ
held_by none = []
held_by (some s) = bytes s.ring

header-mod : (n k : ℕ) → k ≡ n % 2 ^ 16 → header n ≡ header k
header-mod n k e = ap (λ r. (r % 256) ∷ (r / 256) ∷ []) (omega arith)

-- What the next receive sees as the message.
abbrev seen : List ℕ → List ℕ
seen msg = take (length msg % 2 ^ 16) msg

length-seen : (msg : List ℕ) → length (seen msg) ≡ length msg % 2 ^ 16
length-seen msg = omega (arith, length-take (length msg % 2 ^ 16) msg)

bytes-put :
    (s : MessageBuffer) (msg : List ℕ)
    → Holds s []
    → 2 + length msg ≤ ByteRing.free s.ring
    → (bytes (put s msg).ring ≡ frame (seen msg) ++ drop (length msg % 2 ^ 16) msg)
      × Laws.IsValid (put s msg).ring
unfolding put
bytes-put s msg v fits =
    let w = bytes-write_frame s.ring v.ring_ok msg fits in
    let k = length msg % 2 ^ 16 in
    (
      w.0
          ∙ ap (λ l. l ++ frame msg) v.framed
          ∙ ap₂ (λ a b. a ++ b) (header-mod (length msg) (length (seen msg)) (length-seen msg))
              (sym (take-append-drop k msg)),
      w.1,
    )

-- On an empty buffer with room for it, a message of more than 65535 bytes is accepted with a header
-- that is too small: the buffer reports a shorter message, the next receive gets no more than the
-- message's beginning, and the rest stays in the ring where a header is expected.
pub send_isr_truncates :
    (s : MessageBuffer) (msg : List ℕ) (max_len : ℕ)
    → Holds s []
    → 2 ^ 16 ≤ length msg
    → 2 + length msg ≤ s.ring.capacity
    → max_len ≢ 0
    → let (r, h) = send_isr (some s) (some msg) in
      let ((n, got), h') = receive_isr h true max_len in
      (r ≡ ok)
      × (available h ≡ length msg % 2 ^ 16)
      × (got ≡ take max_len (take (length msg % 2 ^ 16) msg))
      × (held_by h' ≡ drop (length msg % 2 ^ 16) msg)
unfolding send_isr receive_isr available
send_isr_truncates s msg max_len v long fits some_wanted =
    let room : 2 + length msg ≤ ByteRing.free s.ring = omega (arith, free-size s [] v) in
    let p = bytes-put s msg v room in
    let rest = drop (length msg % 2 ^ 16) msg in
    let short : length (seen msg) < 2 ^ 16 = omega (arith, length-seen msg) in
    let found = next_len-frame (put s msg).ring p.1 (seen msg) rest short p.0 in
    let taken = consume-frame (put s msg).ring (seen msg) rest max_len p.1 short p.0 in
    let shown : available (some (put s msg)) ≡ length (seen msg) = rw (found, available) refl in
    let wanted : add_size 2 (length msg) ≡ 2 + length msg = omega (arith, v.ring_ok.valid.small) in
    rw
      (
        ne→== (length msg) 0 (omega arith),
        wanted,
        le→ltb (ByteRing.free s.ring) (2 + length msg) room,
        ne→== max_len 0 some_wanted,
        found,
      )
      (refl, shown ∙ length-seen msg, taken.0, taken.1)
