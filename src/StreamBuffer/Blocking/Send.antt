-- ===== src/StreamBuffer/Blocking/Send.antt =====
-- osal_stream_buffer_send.

use micr_osal.Common.{◌≢◌, some_of_ne_none, ltb, ltb→lt}
use micr_osal.StreamBuffer.{returned}
use micr_osal.Common.{subst, some-eq, none-ne}
use micr_osal.Common.{
  ℕ, ◌≤◌, ◌<◌, ◌≡◌, refl, sym, ap, ◌∙◌, ◌⊎◌, inl, inr, List, [], ◌∷◌, ◌++◌, Option, none, some,
  arith, ltb, leb, ◌==◌, length, Bool-cases, leb→le, leb→lt, ==→eq,
}
use micr_osal.Error.{Result, ok, timeout, invalid_argument}
use micr_osal.Tick.{no_wait, expired, wait_forever}
use micr_osal.ByteRing
use micr_osal.StreamBuffer.{StreamBuffer, put, Wake, wait_space, send_loop, send}
use micr_osal.StreamBuffer.Refine.{IsValid, held, put_lem}
use micr_osal.StreamBuffer.Blocking.{
  Steady, SomeExpired, Waited, here, later, wait_space-IsValid, returned-eq_some,
}

-- How a send that returned left the buffer `t` that it last saw.
abbrev pub SendOutcome : List ℕ → StreamBuffer → Result → StreamBuffer → Type 0
SendOutcome bytes t r s' =
    ((r ≡ ok) × (held s' ≡ held t ++ bytes) × (s'.data_sem.count ≡ 1))
    ⊎ ((r ≡ timeout) × (s' ≡ t) × (ByteRing.free t.ring < length bytes))

put-SendOutcome :
    (bytes : List ℕ) (s : StreamBuffer) {r : Result} {s' : StreamBuffer}
    → IsValid s
    → length bytes ≤ ByteRing.free s.ring
    → ◌≡◌ {A = Result × StreamBuffer} (ok, put s bytes) (r, s')
    → SendOutcome bytes s r s'
put-SendOutcome bytes s v fits e =
    let p = put_lem s v bytes fits in
    subst (λ (x : Result × StreamBuffer). SendOutcome bytes s x.0 x.1) e (inl (refl, p.0, p.1))

kept-SendOutcome :
    (bytes : List ℕ) (s : StreamBuffer) {r : Result} {s' : StreamBuffer}
    → ByteRing.free s.ring < length bytes
    → ◌≡◌ {A = Result × StreamBuffer} (timeout, s) (r, s')
    → SendOutcome bytes s r s'
kept-SendOutcome bytes s full e =
    subst (λ (x : Result × StreamBuffer). SendOutcome bytes s x.0 x.1) e (inr (refl, refl, full))

module _ (bytes : List ℕ) (ticks start : ℕ) where
  send_loop_atomic :
      (s : StreamBuffer) (ws : List Wake) {r : Result} {s' : StreamBuffer}
      → IsValid s
      → Steady ws
      → send_loop bytes ticks start s ws ≡ some (r, s')
      → (t : StreamBuffer) × Waited wait_space ws s t × SendOutcome bytes t r s'
  unfolding send_loop
  send_loop_atomic s [] v st e = elim (Bool-cases (leb (length bytes) (ByteRing.free s.ring))) [
    | inl fits ↦ (s, here, put-SendOutcome bytes s v (leb→le _ _ fits) (some-eq (rw fits at e)))
    | inr full ↦ elim (Bool-cases (ticks == no_wait)) [
      | inl now ↦
          (s, here, kept-SendOutcome bytes s (leb→lt _ _ full) (some-eq (rw (full, now) at e)))
      | inr wait ↦ none-ne (rw (full, wait) at e)
    ]
  ]
  send_loop_atomic s (w ∷ ws) v st e =
      elim (Bool-cases (leb (length bytes) (ByteRing.free s.ring))) [
        | inl fits ↦ (s, here, put-SendOutcome bytes s v (leb→le _ _ fits) (some-eq (rw fits at e)))
        | inr full ↦ elim (Bool-cases (ticks == no_wait)) [
          | inl now ↦
              (s, here, kept-SendOutcome bytes s (leb→lt _ _ full) (some-eq (rw (full, now) at e)))
          | inr wait ↦ elim (Bool-cases (expired ticks start w.now)) [
            | inl over ↦ (
              s,
              here,
              kept-SendOutcome bytes s (leb→lt _ _ full) (some-eq (rw (full, wait, over) at e)),
            )
            | inr more ↦
                let v' = wait_space-IsValid w s (st.0 s v) in
                let ih =
                  send_loop_atomic (wait_space w s) ws v' st.1 (rw (full, wait, more) at e) in
                (ih.0, later ih.1, ih.2)
          ]
        ]
      ]

  -- The loop ends by the first reading that shows the timeout to have passed.
  send_loop-ne-none :
      (s : StreamBuffer) (ws : List Wake)
      → (ticks ≡ no_wait) ⊎ SomeExpired ticks start ws
      → send_loop bytes ticks start s ws ≢ none
  unfolding send_loop
  send_loop-ne-none s [] h = ground arith
  send_loop-ne-none s (w ∷ ws) (inl e) = ground arith
  send_loop-ne-none s (w ∷ ws) (inr (inl over)) = ground arith
  send_loop-ne-none s (w ∷ ws) (inr (inr more)) =
      let ih = send_loop-ne-none (wait_space w s) ws (inr more) in ground arith

  -- It gives up only if it was told not to wait or such a reading was there.
  send_loop_timeout :
      (s : StreamBuffer) (ws : List Wake) (s' : StreamBuffer)
      → send_loop bytes ticks start s ws ≡ some (timeout, s')
      → (ticks ≡ no_wait) ⊎ SomeExpired ticks start ws
  unfolding send_loop
  send_loop_timeout s [] s' e = ground arith
  send_loop_timeout s (w ∷ ws) s' e = ground (arith, send_loop_timeout (wait_space w s) ws s')

invalid-ne-timeout : invalid_argument ≢ timeout
invalid-ne-timeout e = cc

-- An endless wait has no end.
never :
    (start ticks : ℕ) (ws : List Wake)
    → ticks ≡ wait_forever
    → ¬ ((ticks ≡ no_wait) ⊎ SomeExpired ticks start ws)
never start ticks ws e (inl z) = omega arith
never start ticks [] e (inr z) = z
never start ticks (w ∷ ws) e (inr (inl z)) = ground arith
never start ticks (w ∷ ws) e (inr (inr z)) = never start ticks ws e (inr z)

-- What a send of `bytes` on `s` that returned did: it refused the data and changed nothing, or it
-- acted on the buffer as it was after some of its waits.
abbrev pub Sent : StreamBuffer → List ℕ → List Wake → Result → Option StreamBuffer → Type 0
Sent s bytes ws r h =
    ((r ≡ invalid_argument)
      × (h ≡ some s)
      × ((length bytes ≡ 0) ⊎ (s.ring.capacity < length bytes)))
    ⊎ ((t : StreamBuffer) × (s' : StreamBuffer) × Waited wait_space ws s t
        × (h ≡ some s')
        × SendOutcome bytes t r s')

-- A send on a sound buffer that returned, whatever the other threads did to keep it sound, either
-- refused data that is empty or longer than the capacity and changed nothing, or acted on the buffer
-- as it was after some of its waits: it appended all of its bytes at once and left a token for the
-- consumer, or found too little room and left the buffer alone.
pub send_atomic :
    (s : StreamBuffer) (bytes : List ℕ) (ticks start : ℕ) (ws : List Wake) (r : Result)
    (h : Option StreamBuffer)
    → IsValid s
    → Steady ws
    → send (some s) (some bytes) ticks start ws ≡ some (r, h)
    → Sent s bytes ws r h
unfolding send
send_atomic s bytes ticks start ws r h v st e = elim (Bool-cases (length bytes == 0)) [
  | inl z ↦
      let p = some-eq (rw z at e) in
      inl (ap (λ x. x.0) (sym p), ap (λ x. x.1) (sym p), inl (==→eq _ _ z))
  | inr z ↦ elim (Bool-cases (ltb s.ring.capacity (length bytes))) [
    | inl long ↦
        let p = some-eq (rw (z, long) at e) in
        inl (ap (λ x. x.0) (sym p), ap (λ x. x.1) (sym p), inr (ltb→lt _ _ long))
    | inr fits ↦
        let q = returned-eq_some (send_loop bytes ticks start s ws) (rw (z, fits) at e) in
        let a = send_loop_atomic bytes ticks start s ws v st q.1 in inr (a.0, q.0, a.1, q.2, a.2)
  ]
]

-- The loop's result is there only if the whole call's is, and the other way round.
send-loop {ℓ} :
    {P : Type ℓ} (s : StreamBuffer) (bytes : List ℕ) (ticks start : ℕ) (ws : List Wake)
    → (send (some s) (some bytes) ticks start ws ≡ some (invalid_argument, some s) → P)
    → (send (some s) (some bytes) ticks start ws ≡ returned (send_loop bytes ticks start s ws) → P)
    → P
unfolding send
send-loop s bytes ticks start ws refused looped = elim (Bool-cases (length bytes == 0)) [
  | inl z ↦ refused (rw z)
  | inr z ↦ elim (Bool-cases (ltb s.ring.capacity (length bytes))) [
    | inl long ↦ refused (rw (z, long))
    | inr fits ↦ looped (rw (z, fits))
  ]
]

-- A send that is told not to wait, or that at some round of its waiting reads a clock by which its
-- timeout has passed, returns.
pub send_returns :
    (s : StreamBuffer) (bytes : List ℕ) (ticks start : ℕ) (ws : List Wake)
    → (ticks ≡ no_wait) ⊎ SomeExpired ticks start ws
    → (x : Result × Option StreamBuffer) × (send (some s) (some bytes) ticks start ws ≡ some x)
send_returns s bytes ticks start ws h =
    let l = some_of_ne_none _ (send_loop-ne-none bytes ticks start s ws h) in
    send-loop s bytes ticks start ws (λ e. ((invalid_argument, some s), e))
      (λ e. ((l.0.0, some (l.0.1)), e ∙ ap returned l.1))

-- A send that returns a timeout was told not to wait, or read a clock by which its timeout had
-- passed; so a send that waits forever never returns one.
pub send_timeout :
    (s : StreamBuffer) (bytes : List ℕ) (ticks start : ℕ) (ws : List Wake) (h : Option StreamBuffer)
    → send (some s) (some bytes) ticks start ws ≡ some (timeout, h)
    → ((ticks ≡ no_wait) ⊎ SomeExpired ticks start ws) × (ticks ≢ wait_forever)
send_timeout s bytes ticks start ws h e =
    send-loop s bytes ticks start ws
      (λ q. absurd (invalid-ne-timeout (ap (λ x. x.0) (some-eq (sym q ∙ e)))))
      (λ q.
        let l = returned-eq_some (send_loop bytes ticks start s ws) (sym q ∙ e) in
        let over = send_loop_timeout bytes ticks start s ws l.0 l.1 in
        (over, λ forever. never start ticks ws forever over))
