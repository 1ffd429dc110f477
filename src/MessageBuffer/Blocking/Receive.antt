-- ===== src/MessageBuffer/Blocking/Receive.antt =====
-- osal_message_buffer_receive.
use micr_osal.Common.{
  ℕ, ◌<◌, ◌≡◌, ◌≢◌, refl, sym, ap₂, inl, inr, List, [], ◌∷◌, Option, none, some, true, arith, leb,
  length, take, min, Bool-cases, le→leb, ne→==, some-eq, none-ne, length-take, subst,
}
use micr_osal.ByteRing
use micr_osal.Wait.{Round, AllSteady, Seen, wait_until, wait_until_ends, Ended, Seen-keeps}
use micr_osal.MessageBuffer.{MessageBuffer, k_msg_header_bytes, consume}
use micr_osal.MessageBuffer.Frame.{next_len-frame, next_len-empty, consume-frame}
use micr_osal.MessageBuffer.Refine.{Holds, frames, available-size}
use micr_osal.MessageBuffer.Blocking.{
  wait_data, rearmed, try_receive, receive, Sound, wait_data-Sound, token, returned-eq_some,
}

-- How a receive that returned left the buffer `t`, with the messages `q`, that it last saw: it found
-- no message, or took the first one.
abbrev pub ReceiveEnd : ℕ → MessageBuffer → List (List ℕ) → ℕ × List ℕ → MessageBuffer → Type 0
ReceiveEnd max_len t [] got s' = (got ≡ (0, [])) × (s' ≡ t)
ReceiveEnd max_len t (m ∷ q) got s' =
    (got ≡ (length (take max_len m), take max_len m))
    × Holds s' q
    × (0 < s'.space_sem.count)
    × (q ≢ [] → 0 < s'.data_sem.count)

-- What a receive on `s` that returned did, on the buffer as it was after some of its waits.
abbrev pub MessageReceived :
    MessageBuffer → ℕ → List (Round MessageBuffer) → ℕ × List ℕ → Option MessageBuffer → Type 0
MessageReceived s max_len ws got h =
    (t : MessageBuffer) × (q : List (List ℕ)) × (s' : MessageBuffer) × Seen wait_data ws s t
    × Holds t q
    × (h ≡ some s')
    × ReceiveEnd max_len t q got s'

rearmed-Holds : (s : MessageBuffer) (q : List (List ℕ)) → Holds s q → Holds (rearmed s) q
rearmed-Holds s q v = elim (Bool-cases (leb k_msg_header_bytes (ByteRing.available s.ring))) [
  | inl e ↦ rw e (record { ring_ok = v.ring_ok; short = v.short; framed = v.framed })
  | inr e ↦ rw e (record { ring_ok = v.ring_ok; short = v.short; framed = v.framed })
]

rearmed-space : (s : MessageBuffer) → s.space_sem.max_count ≡ 1 → 0 < (rearmed s).space_sem.count
rearmed-space s b = elim (Bool-cases (leb k_msg_header_bytes (ByteRing.available s.ring))) [
  | inl e ↦ rw e (token s.space_sem b)
  | inr e ↦ rw e (token s.space_sem b)
]

rearmed-data :
    (s : MessageBuffer) (q : List (List ℕ))
    → Holds s q
    → s.data_sem.max_count ≡ 1
    → q ≢ []
    → 0 < (rearmed s).data_sem.count
rearmed-data s [] v b more = absurd (more refl)
rearmed-data s (m ∷ q) v b more =
    let size = available-size s (m ∷ q) v in
    rw (le→leb 2 (ByteRing.available s.ring) (omega arith)) (token s.data_sem b)

try_receive-none :
    (max_len : ℕ) (t : MessageBuffer) (q : List (List ℕ))
    → Holds t q
    → try_receive max_len t ≡ none
    → q ≡ []
unfolding try_receive
try_receive-none max_len t [] v e = refl
try_receive-none max_len t (m ∷ q) v e =
    let found = next_len-frame t.ring v.ring_ok m (frames q) (v.short.0) v.framed in
    none-ne (sym (rw (found, try_receive) at e))

try_receive-some :
    (max_len : ℕ) (t s' : MessageBuffer) (q : List (List ℕ)) {got : ℕ × List ℕ}
    → Holds t q
    → t.data_sem.max_count ≡ 1
    → t.space_sem.max_count ≡ 1
    → try_receive max_len t ≡ some (got, s')
    → ReceiveEnd max_len t q got s'
unfolding try_receive
try_receive-some max_len t s' [] v d p e =
    none-ne (rw (next_len-empty t.ring v.ring_ok v.framed, try_receive) at e)
try_receive-some max_len t s' (m ∷ q) v d p e =
    let found = next_len-frame t.ring v.ring_ok m (frames q) (v.short.0) v.framed in
    let taken = consume-frame t.ring m (frames q) max_len v.ring_ok (v.short.0) v.framed in
    let r = record t { ring = (consume t.ring (length m) max_len).1 } in
    let left : Holds r q = record { ring_ok = taken.2; short = v.short.1; framed = taken.1 } in
    let n : min (length m) max_len ≡ length (take max_len m) =
      omega (arith, length-take max_len m) in
    let same = some-eq (rw (found, try_receive) at e) in
    subst (λ (x : (ℕ × List ℕ) × MessageBuffer). ReceiveEnd max_len t (m ∷ q) x.0 x.1) same
      (
        ap₂ (λ i l. (i, l)) n taken.0,
        rearmed-Holds r q left,
        rearmed-space r p,
        rearmed-data r q left d,
      )

receive_loop-end :
    (max_len : ℕ) (s : MessageBuffer) (ws : List (Round MessageBuffer)) {got : ℕ × List ℕ}
    {s' : MessageBuffer}
    → AllSteady Sound ws
    → Sound s
    → Ended (try_receive max_len) (0, []) wait_data ws s got s'
    → (t : MessageBuffer) × (q : List (List ℕ)) × Seen wait_data ws s t
      × Holds t q
      × ReceiveEnd max_len t q got s'
receive_loop-end max_len s ws {got} {s'} st v (t, seen, ended) =
    let u = Seen-keeps Sound wait_data-Sound st v seen in
    elim ended [
      | inl e ↦ (
        t,
        u.messages,
        seen,
        u.holds,
        try_receive-some max_len t s' u.messages u.holds u.data_binary u.space_binary e,
      )
      | inr (e, late, kept) ↦
          let empty = try_receive-none max_len t u.messages u.holds e in
          (t, [], seen, subst (Holds t) empty (u.holds), (late, kept))
    ]

-- A receive of up to `max_len` bytes, not 0, from a buffer that holds messages, which returned,
-- whatever the other threads did to keep it sound: on the buffer as it was after some of its waits, it
-- found no message and left it alone; or it took the first message off, gave its beginning and how
-- long that is, left a token for the producer and, if more messages are there, one for the consumer.
pub receive_whole :
    (s : MessageBuffer) (max_len ticks start : ℕ) (ws : List (Round MessageBuffer))
    (got : ℕ × List ℕ) (h : Option MessageBuffer)
    → Sound s
    → AllSteady Sound ws
    → max_len ≢ 0
    → receive (some s) true max_len ticks start ws ≡ some (got, h)
    → MessageReceived s max_len ws got h
unfolding receive
receive_whole s max_len ticks start ws got h v st positive e =
    let q =
      returned-eq_some (wait_until (try_receive max_len) (0, []) wait_data ticks start s ws)
        (rw (ne→== max_len 0 positive) at e) in
    let x =
      receive_loop-end max_len s ws st v
        (wait_until_ends (try_receive max_len) (0, []) wait_data ticks start s ws q.1) in
    (x.0, x.1, q.0, x.2, x.3, q.2, x.4)
