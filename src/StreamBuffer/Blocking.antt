-- ===== src/StreamBuffer/Blocking.antt =====
-- The calls that block, over whatever the other threads do meanwhile.
pub mod Send
pub mod Receive
use micr_osal.Common.{take-append-drop, ne→==}
use micr_osal.Common.{◌≢◌, some_of_ne_none, ltb, ltb→lt, ◌||◌, not, ltb→le}
use micr_osal.ByteRing.Laws.{length-bytes}
use micr_osal.StreamBuffer.{returned}
use micr_osal.Common.{subst, some-eq, none-ne}
use micr_osal.Common.{
  ℕ, ◌+◌, ◌≤◌, ◌<◌, ◌≡◌, refl, sym, ap, ◌∙◌, ◌⊎◌, inl, inr, List, [], ◌∷◌, ◌++◌, Option, none, some,
  Bool, true, false, arith, ltb, leb, ◌==◌, length, Bool-cases, leb→le, leb→lt, ==→eq, ==→ne, min,
  take, drop,
}
use micr_osal.Error.{Result, ok, timeout, invalid_argument}
use micr_osal.Tick.{no_wait, expired, wait_forever}
use micr_osal.ByteRing
use micr_osal.StreamBuffer.{
  StreamBuffer, put, get, Wake, wait_space, wait_data, send_loop, send, receive_loop, receive,
}
use micr_osal.StreamBuffer.Refine.{IsValid, held, put_lem, get_lem}

-- The other threads keep the buffer sound.
abbrev pub Steady : List Wake → Type 0
Steady [] = Unit
Steady (w ∷ ws) = ((x : StreamBuffer) → IsValid x → IsValid (w.others x)) × Steady ws

-- A reading of the clock shows that the timeout has passed.
abbrev pub SomeExpired : ℕ → ℕ → List Wake → Type 0
SomeExpired ticks start [] = ⊥
SomeExpired ticks start (w ∷ ws) = (expired ticks start w.now ≡ true) ⊎ SomeExpired ticks start ws

-- The buffer that a call sees after some of the rounds.
pub data Waited (wait : Wake → StreamBuffer → StreamBuffer)
    : List Wake → StreamBuffer → StreamBuffer → Type 0 where
  here : {ws : List Wake} {s : StreamBuffer} → Waited wait ws s s
  later :
      {w : Wake} {ws : List Wake} {s t : StreamBuffer}
      → Waited wait ws (wait w s) t
      → Waited wait (w ∷ ws) s t

pub wait_space-IsValid :
    (w : Wake) (s : StreamBuffer) → IsValid (w.others s) → IsValid (wait_space w s)
unfolding wait_space
wait_space-IsValid w s v = record {
  ring_ok = v.ring_ok;
  trigger_positive = v.trigger_positive;
  data_binary = v.data_binary;
  data_bound = v.data_bound;
  space_binary = ground (arith, v.space_binary);
  space_bound = ground (arith, v.space_bound);
}

pub wait_data-IsValid :
    (w : Wake) (s : StreamBuffer) → IsValid (w.others s) → IsValid (wait_data w s)
unfolding wait_data
wait_data-IsValid w s v = record {
  ring_ok = v.ring_ok;
  trigger_positive = v.trigger_positive;
  data_binary = ground (arith, v.data_binary);
  data_bound = ground (arith, v.data_bound);
  space_binary = v.space_binary;
  space_bound = v.space_bound;
}

pub returned-eq_some {ℓ} :
    {A : Type ℓ} (o : Option (A × StreamBuffer)) {a : A} {h : Option StreamBuffer}
    → returned o ≡ some (a, h)
    → (s' : StreamBuffer) × (o ≡ some (a, s')) × (h ≡ some s')
returned-eq_some none e = none-ne e
returned-eq_some (some (b, s')) e =
    let p = some-eq e in (s', ap (λ x. some (x.0, s')) p, ap (λ x. x.1) (sym p))
