-- ===== src/MessageBuffer/Blocking/Send.antt =====
-- osal_message_buffer_send.
use micr_osal.Common.{
  ℕ, ◌+◌, ◌-◌, ◌≤◌, ◌<◌, ◌≡◌, ◌^◌, refl, sym, ap, ◌⊎◌, inl, inr, List, [], ◌∷◌, ◌++◌, Option, none,
  some, arith, ltb, leb, ◌==◌, length, add_size, Bool-cases, ==→eq, ltb→lt, ltb→le, leb→le, leb→lt,
  some-eq, none-ne, some_of_ne_none, subst,
}
use micr_osal.Error.{Result, ok, timeout, invalid_argument}
use micr_osal.Tick.{no_wait}
use micr_osal.ByteRing
use micr_osal.Wait.{
  Round, AllSteady, Passed, Seen, wait_until, wait_until_ends, wait_until-ne-none, Ended,
  Seen-keeps,
}
use micr_osal.MessageBuffer.{MessageBuffer, k_msg_header_bytes, put}
use micr_osal.MessageBuffer.Spec
use micr_osal.MessageBuffer.Refine.{Holds, put-Holds, free-size}
use micr_osal.MessageBuffer.Blocking.{
  try_send, wait_space, returned, send, Sound, wait_space-Sound, token, returned-eq_some,
}

-- How a send that returned left the buffer `t` that it last saw.
abbrev pub SendEnd : List ℕ → MessageBuffer → List (List ℕ) → Result → MessageBuffer → Type 0
SendEnd msg t q r s' =
    ((r ≡ ok) × Holds s' (q ++ (msg ∷ [])) × (0 < s'.data_sem.count))
    ⊎ ((r ≡ timeout) × (s' ≡ t) × (t.ring.capacity < Spec.size q + 2 + length msg))

-- What a send of `msg` on `s` that returned did.
abbrev pub MessageSent :
    MessageBuffer → List ℕ → List (Round MessageBuffer) → Result → Option MessageBuffer → Type 0
MessageSent s msg ws r h =
    ((r ≡ invalid_argument)
      × (h ≡ some s)
      × ((length msg ≡ 0) ⊎ (2 ^ 16 ≤ length msg) ⊎ (s.ring.capacity < 2 + length msg)))
    ⊎ ((t : MessageBuffer) × (q : List (List ℕ)) × (s' : MessageBuffer) × Seen wait_space ws s t
        × Holds t q
        × (h ≡ some s')
        × SendEnd msg t q r s')

put-token :
    (s : MessageBuffer) (msg : List ℕ) → s.data_sem.max_count ≡ 1 → 0 < (put s msg).data_sem.count
unfolding put
put-token s msg e = token s.data_sem e

try_send-some :
    (msg : List ℕ) (t s' : MessageBuffer) (v : Sound t) {r : Result}
    → length msg < 2 ^ 16
    → try_send msg t ≡ some (r, s')
    → SendEnd msg t v.messages r s'
unfolding try_send
try_send-some msg t s' v short e =
    let wanted : add_size 2 (length msg) ≡ 2 + length msg = omega arith in
    elim (Bool-cases (leb (2 + length msg) (ByteRing.free t.ring))) [
      | inr full ↦ none-ne (rw (wanted, full) at e)
      | inl fits ↦
          let p = some-eq (rw (wanted, fits) at e) in
          let room = leb→le (2 + length msg) (ByteRing.free t.ring) fits in
          let done = put-Holds t v.messages v.holds msg short room in
          subst (λ (x : Result × MessageBuffer). SendEnd msg t v.messages x.0 x.1) p
            (inl (refl, done, put-token t msg v.data_binary))
    ]

try_send-none :
    (msg : List ℕ) (t : MessageBuffer) (v : Sound t)
    → length msg < 2 ^ 16
    → try_send msg t ≡ none
    → t.ring.capacity < Spec.size v.messages + 2 + length msg
unfolding try_send
try_send-none msg t v short e =
    let wanted : add_size 2 (length msg) ≡ 2 + length msg = omega arith in
    elim (Bool-cases (leb (2 + length msg) (ByteRing.free t.ring))) [
      | inl fits ↦ none-ne (sym (rw (wanted, fits) at e))
      | inr full ↦ omega (
        arith,
        leb→lt (2 + length msg) (ByteRing.free t.ring) full,
        free-size t v.messages v.holds,
      )
    ]

-- The loop's result, on what it last saw.
send_loop-end :
    (msg : List ℕ) (s : MessageBuffer) (ws : List (Round MessageBuffer)) {r : Result}
    {s' : MessageBuffer}
    → length msg < 2 ^ 16
    → AllSteady Sound ws
    → Sound s
    → Ended (try_send msg) timeout wait_space ws s r s'
    → (t : MessageBuffer) × (q : List (List ℕ)) × Seen wait_space ws s t
      × Holds t q
      × SendEnd msg t q r s'
send_loop-end msg s ws {r} {s'} short st v (t, seen, ended) =
    let u = Seen-keeps Sound wait_space-Sound st v seen in
    elim ended [
      | inl e ↦ (t, u.messages, seen, u.holds, try_send-some msg t s' u short e)
      | inr (e, late, kept) ↦
          (t, u.messages, seen, u.holds, inr (late, kept, try_send-none msg t u short e))
    ]

-- A send on a buffer that holds messages, which returned, whatever the other threads did to keep it
-- sound: it refused a message that is empty, longer than 65535 bytes or too long for the capacity, and
-- changed nothing; or, on the buffer as it was after some of its waits, it put the whole message
-- behind the others and left a token for the consumer, or found too little room and left it alone.
pub send_whole :
    (s : MessageBuffer) (msg : List ℕ) (ticks start : ℕ) (ws : List (Round MessageBuffer))
    (r : Result) (h : Option MessageBuffer)
    → Sound s
    → AllSteady Sound ws
    → send (some s) (some msg) ticks start ws ≡ some (r, h)
    → MessageSent s msg ws r h
unfolding send
send_whole s msg ticks start ws r h v st e = elim (Bool-cases (length msg == 0)) [
  | inl z ↦
      let p = some-eq (rw z at e) in
      inl (ap (λ x. x.0) (sym p), ap (λ x. x.1) (sym p), inl (==→eq _ _ z))
  | inr z ↦ elim (Bool-cases (ltb (2 ^ 16 - 1) (length msg))) [
    | inl long ↦
        let p = some-eq (rw (z, long) at e) in
        inl (
          ap (λ x. x.0) (sym p),
          ap (λ x. x.1) (sym p),
          inr (inl (omega (arith, ltb→lt (2 ^ 16 - 1) (length msg) long))),
        )
    | inr short ↦
        let below : length msg < 2 ^ 16 = omega (arith, ltb→le (2 ^ 16 - 1) (length msg) short) in
        let wanted : add_size 2 (length msg) ≡ 2 + length msg = omega arith in
        elim (Bool-cases (ltb s.ring.capacity (2 + length msg))) [
          | inl wide ↦
              let p = some-eq (rw (z, short, wanted, wide) at e) in
              inl (
                ap (λ x. x.0) (sym p),
                ap (λ x. x.1) (sym p),
                inr (inr (ltb→lt s.ring.capacity (2 + length msg) wide)),
              )
          | inr fits ↦
              let q =
                returned-eq_some (wait_until (try_send msg) timeout wait_space ticks start s ws)
                  (rw (z, short, wanted, fits) at e) in
              let x =
                send_loop-end msg s ws below st v
                  (wait_until_ends (try_send msg) timeout wait_space ticks start s ws q.1) in
              inr (x.0, x.1, q.0, x.2, x.3, q.2, x.4)
        ]
  ]
]

-- A send that is told not to wait, or that at some round of its waiting reads a clock by which its
-- timeout has passed, returns.
pub send_ends :
    (s : MessageBuffer) (msg : List ℕ) (ticks start : ℕ) (ws : List (Round MessageBuffer))
    → (ticks ≡ no_wait) ⊎ Passed ticks start ws
    → (x : Result × Option MessageBuffer) × (send (some s) (some msg) ticks start ws ≡ some x)
unfolding send
send_ends s msg ticks start ws h =
    let loop = wait_until (try_send msg) timeout wait_space ticks start s ws in
    let l =
      some_of_ne_none loop
        (wait_until-ne-none (try_send msg) timeout wait_space ticks start s ws h) in
    elim (Bool-cases (length msg == 0)) [
      | inl z ↦ ((invalid_argument, some s), rw z)
      | inr z ↦ elim (Bool-cases (ltb (2 ^ 16 - 1) (length msg))) [
        | inl long ↦ ((invalid_argument, some s), rw (z, long))
        | inr short ↦
            elim (Bool-cases (ltb s.ring.capacity (add_size k_msg_header_bytes (length msg)))) [
              | inl wide ↦ ((invalid_argument, some s), rw (z, short, wide))
              | inr fits ↦ ((l.0.0, some (l.0.1)), rw (z, short, fits) (ap returned l.1))
            ]
      ]
    ]
