-- ===== src/StreamBuffer/Blocking/Receive.antt =====
-- osal_stream_buffer_receive.
use micr_osal.StreamBuffer.Blocking.Send.{send_returns}
use micr_osal.StreamBuffer.{send}
use micr_osal.Error.{Result}
use micr_osal.Common.{take-append-drop, ne→==}
use micr_osal.Common.{◌≢◌, some_of_ne_none, ◌||◌, not}
use micr_osal.ByteRing.Laws.{length-bytes}
use micr_osal.StreamBuffer.{returned}
use micr_osal.Common.{subst, some-eq, none-ne}
use micr_osal.Common.{
  ℕ, ◌≤◌, ◌<◌, ◌≡◌, refl, sym, ap, ◌⊎◌, inl, inr, List, [], ◌∷◌, ◌++◌, Option, none, some, Bool,
  true, arith, leb, ◌==◌, length, Bool-cases, leb→le, leb→lt, min, take,
}
use micr_osal.Tick.{no_wait, expired}
use micr_osal.ByteRing
use micr_osal.StreamBuffer.{StreamBuffer, get, Wake, wait_data, receive_loop, receive}
use micr_osal.StreamBuffer.Refine.{IsValid, held, get_lem}
use micr_osal.StreamBuffer.Blocking.{
  Steady, SomeExpired, Waited, here, later, wait_data-IsValid, returned-eq_some,
}

-- How a receive that returned left the buffer `t` that it last saw.
abbrev pub ReceiveOutcome : ℕ → StreamBuffer → List ℕ → StreamBuffer → Type 0
ReceiveOutcome max_len t got s' =
    ((t.trigger ≤ length (held t))
      × (got ≡ take (min (length (held t)) max_len) (held t))
      × (held t ≡ got ++ held s')
      × (s'.space_sem.count ≡ 1))
    ⊎ ((got ≡ []) × (s' ≡ t) × (length (held t) < t.trigger))

get-ReceiveOutcome :
    (max_len : ℕ) (s : StreamBuffer) {got : List ℕ} {s' : StreamBuffer}
    → IsValid s
    → s.trigger ≤ ByteRing.available s.ring
    → get s max_len ≡ (got, s')
    → ReceiveOutcome max_len s got s'
get-ReceiveOutcome max_len s v enough e =
    let g = get_lem s v max_len in
    let same = length-bytes s.ring v.ring_ok in
    let n = min (ByteRing.available s.ring) max_len in
    let all : held s ≡ (get s max_len).0 ++ held (get s max_len).1 =
      rw (g.0, g.1) (sym (take-append-drop n (held s))) in
    let got : (get s max_len).0 ≡ take (min (length (held s)) max_len) (held s) = rw same (g.0) in
    subst (λ (x : List ℕ × StreamBuffer). ReceiveOutcome max_len s x.0 x.1) e
      (inl (omega (arith, same), got, all, g.2))

kept-ReceiveOutcome :
    (max_len : ℕ) (s : StreamBuffer) {got : List ℕ} {s' : StreamBuffer}
    → IsValid s
    → ByteRing.available s.ring < s.trigger
    → ◌≡◌ {A = List ℕ × StreamBuffer} ([], s) (got, s')
    → ReceiveOutcome max_len s got s'
kept-ReceiveOutcome max_len s v low e =
    subst (λ (x : List ℕ × StreamBuffer). ReceiveOutcome max_len s x.0 x.1) e
      (inr (refl, refl, omega (arith, length-bytes s.ring v.ring_ok)))

module _ (max_len : ℕ) (ticks start : ℕ) where
  receive_loop_atomic :
      (s : StreamBuffer) (ws : List Wake) {got : List ℕ} {s' : StreamBuffer}
      → IsValid s
      → Steady ws
      → receive_loop max_len ticks start s ws ≡ some (got, s')
      → (t : StreamBuffer) × Waited wait_data ws s t × ReceiveOutcome max_len t got s'
  unfolding receive_loop
  receive_loop_atomic s [] v st e = elim (Bool-cases (leb s.trigger (ByteRing.available s.ring))) [
    | inl enough ↦
        (s, here, get-ReceiveOutcome max_len s v (leb→le _ _ enough) (some-eq (rw enough at e)))
    | inr low ↦ elim (Bool-cases (ticks == no_wait)) [
      | inl now ↦
          (s, here, kept-ReceiveOutcome max_len s v (leb→lt _ _ low) (some-eq (rw (low, now) at e)))
      | inr wait ↦ none-ne (rw (low, wait) at e)
    ]
  ]
  receive_loop_atomic s (w ∷ ws) v st e =
      elim (Bool-cases (leb s.trigger (ByteRing.available s.ring))) [
        | inl enough ↦
            (s, here, get-ReceiveOutcome max_len s v (leb→le _ _ enough) (some-eq (rw enough at e)))
        | inr low ↦ elim (Bool-cases (ticks == no_wait)) [
          | inl now ↦ (
            s,
            here,
            kept-ReceiveOutcome max_len s v (leb→lt _ _ low) (some-eq (rw (low, now) at e)),
          )
          | inr wait ↦ elim (Bool-cases (expired ticks start w.now)) [
            | inl over ↦ (
              s,
              here,
              kept-ReceiveOutcome max_len s v (leb→lt _ _ low)
                  (some-eq (rw (low, wait, over) at e)),
            )
            | inr more ↦
                let v' = wait_data-IsValid w s (st.0 s v) in
                let ih =
                  receive_loop_atomic (wait_data w s) ws v' st.1 (rw (low, wait, more) at e) in
                (ih.0, later ih.1, ih.2)
          ]
        ]
      ]

module _ (max_len : ℕ) (ticks start : ℕ) where
  receive_loop-ne-none :
      (s : StreamBuffer) (ws : List Wake)
      → (ticks ≡ no_wait) ⊎ SomeExpired ticks start ws
      → receive_loop max_len ticks start s ws ≢ none
  unfolding receive_loop
  receive_loop-ne-none s [] h = ground arith
  receive_loop-ne-none s (w ∷ ws) (inl e) = ground arith
  receive_loop-ne-none s (w ∷ ws) (inr (inl over)) = ground arith
  receive_loop-ne-none s (w ∷ ws) (inr (inr more)) =
      let ih = receive_loop-ne-none (wait_data w s) ws (inr more) in ground arith

-- A receive that is told not to wait, or that at some round of its waiting reads a clock by which its
-- timeout has passed, returns.
pub receive_returns :
    (s : StreamBuffer) (buf : Bool) (max_len ticks start : ℕ) (ws : List Wake)
    → (ticks ≡ no_wait) ⊎ SomeExpired ticks start ws
    → (x : List ℕ × Option StreamBuffer) × (receive (some s) buf max_len ticks start ws ≡ some x)
unfolding receive
receive_returns s buf max_len ticks start ws h =
    let l = some_of_ne_none _ (receive_loop-ne-none max_len ticks start s ws h) in
    elim (Bool-cases (not buf || max_len == 0)) [
      | inl e ↦ (([], some s), rw e)
      | inr e ↦ ((l.0.0, some (l.0.1)), rw e (ap returned l.1))
    ]

-- A send and a receive that are told not to wait, or that at some round of their waiting read a clock by
-- which their timeout has passed, return.
pub calls_return :
    (s : StreamBuffer) (bytes : List ℕ) (buf : Bool) (max_len ticks start : ℕ) (ws : List Wake)
    → (ticks ≡ no_wait) ⊎ SomeExpired ticks start ws
    → ((x : Result × Option StreamBuffer) × (send (some s) (some bytes) ticks start ws ≡ some x))
      × ((y : List ℕ × Option StreamBuffer) × (receive (some s) buf max_len ticks start ws
            ≡ some y))
calls_return s bytes buf max_len ticks start ws h =
    (send_returns s bytes ticks start ws h, receive_returns s buf max_len ticks start ws h)

-- What a receive on `s` that returned `got` did, on the buffer as it was after some of its waits.
abbrev pub Received : StreamBuffer → ℕ → List Wake → List ℕ → Option StreamBuffer → Type 0
Received s max_len ws got h =
    (t : StreamBuffer) × (s' : StreamBuffer) × Waited wait_data ws s t
    × (h ≡ some s')
    × ReceiveOutcome max_len t got s'

-- A receive of up to `max_len` bytes, not 0, from a sound buffer, that returned: it acted on the
-- buffer as it was after some of its waits. At or above the trigger level it took the oldest bytes,
-- as many as are there up to `max_len`, and left a token for the producer; below it took none and
-- left the buffer alone.
pub receive_atomic :
    (s : StreamBuffer) (max_len ticks start : ℕ) (ws : List Wake) (got : List ℕ)
    (h : Option StreamBuffer)
    → IsValid s
    → Steady ws
    → max_len ≢ 0
    → receive (some s) true max_len ticks start ws ≡ some (got, h)
    → Received s max_len ws got h
unfolding receive
receive_atomic s max_len ticks start ws got h v st positive e =
    let q =
      returned-eq_some (receive_loop max_len ticks start s ws)
        (rw (ne→== max_len 0 positive) at e) in
    let a = receive_loop_atomic max_len ticks start s ws v st q.1 in (a.0, q.0, a.1, q.2, a.2)
