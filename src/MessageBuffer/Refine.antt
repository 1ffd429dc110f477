-- ===== src/MessageBuffer/Refine.antt =====
-- The calls that do not block, against the queue of the messages that the buffer holds.
use micr_osal.Common.{
  ℕ, ◌+◌, ◌-◌, ◌^◌, ◌≤◌, ◌<◌, ◌≡◌, refl, sym, ap, ap₂, ◌∙◌, inl, inr, List, [], ◌∷◌, ◌++◌, Option,
  none, some, arith, leb, ◌==◌, length, take, min, add_size, append_assoc, append-nil,
  length-append, length-take, Bool-cases, lt-or-ge, lt→ltb, le→ltb, le→leb, lt→leb_false,
}
use micr_osal.ByteRing
use micr_osal.ByteRing.{ByteRing}
use micr_osal.ByteRing.Laws
use micr_osal.ByteRing.Laws.{
  bytes, length-bytes, available-le, free_lem, bytes-flush, flush-IsValid,
}
use micr_osal.MessageBuffer.{
  MessageBuffer, put, write_frame, consume, send_isr, receive_isr, available, free_space, reset,
  step, run,
}
use micr_osal.MessageBuffer.Frame.{
  frame, bytes-write_frame, next_len-frame, next_len-empty, consume-frame,
}
use micr_osal.MessageBuffer.Spec
use micr_osal.MessageBuffer.Spec.{
  Call, sends, receives, resets, asks, Reply, answered, delivered, state,
}

-- The frames of messages, one behind the other.
abbrev pub frames : List (List ℕ) → List ℕ
frames [] = []
frames (m ∷ q) = frame m ++ frames q

-- The messages' lengths fit in their headers.
abbrev pub Short : List (List ℕ) → Type 0
Short [] = Unit
Short (m ∷ q) = (length m < 2 ^ 16) × Short q

-- The buffer holds these messages and nothing else.
pub record Holds (s : MessageBuffer) (q : List (List ℕ)) : Type 0 where
  pub ring_ok : Laws.IsValid s.ring
  pub short : Short q
  pub framed : bytes s.ring ≡ frames q

pub length-frames : (q : List (List ℕ)) → length (frames q) ≡ Spec.size q
length-frames [] = refl
length-frames (m ∷ q) = omega (arith, length-append (frame m) (frames q), length-frames q)

frames-append : (q : List (List ℕ)) (m : List ℕ) → frames (q ++ (m ∷ [])) ≡ frames q ++ frame m
frames-append [] m = append-nil (frame m)
frames-append (x ∷ q) m =
    ap (λ l. frame x ++ l) (frames-append q m) ∙ sym (append_assoc (frame x) (frames q) (frame m))

Short-append :
    (q : List (List ℕ)) (m : List ℕ) → Short q → length m < 2 ^ 16 → Short (q ++ (m ∷ []))
Short-append [] m a h = (h, a)
Short-append (x ∷ q) m a h = (a.0, Short-append q m a.1 h)

module _ (s : MessageBuffer) (q : List (List ℕ)) (v : Holds s q) where
  pub available-size : ByteRing.available s.ring ≡ Spec.size q
  available-size = sym (length-bytes s.ring v.ring_ok) ∙ ap length v.framed ∙ length-frames q

  pub free-size : ByteRing.free s.ring ≡ s.ring.capacity - Spec.size q
  free-size = free_lem s.ring v.ring_ok ∙ ap (λ n. s.ring.capacity - n) available-size

  -- A message that fits is put behind the others.
  pub put-Holds :
      (m : List ℕ)
      → length m < 2 ^ 16
      → 2 + length m ≤ ByteRing.free s.ring
      → Holds (put s m) (q ++ (m ∷ []))
  unfolding put
  put-Holds m h fits =
      let w = bytes-write_frame s.ring v.ring_ok m fits in
      record {
        ring_ok = w.1;
        short = Short-append q m v.short h;
        framed = w.0 ∙ ap (λ l. l ++ frame m) v.framed ∙ sym (frames-append q m);
      }

-- The object behind a handle has this capacity and holds these messages.
abbrev pub Serves : ℕ → Option MessageBuffer → List (List ℕ) → Type 0
Serves capacity none q = ⊥
Serves capacity (some s) q = Holds s q × (s.ring.capacity ≡ capacity)

-- What a message buffer of this capacity answers, and what it holds afterwards.
abbrev Answers : ℕ → Spec.Reply × Option MessageBuffer → Spec.Reply × List (List ℕ) → Type 0
Answers capacity (reply, h) (expected, q) = (reply ≡ expected) × Serves capacity h q

-- A send of a message that has a header.
abbrev pub Good : Call → Type 0
Good (sends m) = length m < 2 ^ 16
Good (receives max_len) = Unit
Good resets = Unit
Good asks = Unit

abbrev pub AllGood : List Call → Type 0
AllGood [] = Unit
AllGood (c ∷ cs) = Good c × AllGood cs

capacity-put : (s : MessageBuffer) (m : List ℕ) → (put s m).ring.capacity ≡ s.ring.capacity
unfolding put write_frame
capacity-put s m = refl

capacity-consume : (r : ByteRing) (len n : ℕ) → (consume r len n).1.capacity ≡ r.capacity
unfolding consume ByteRing.read ByteRing.skip
capacity-consume r len n = elim (Bool-cases (leb len n)) [ inl e ↦ rw e refl | inr e ↦ rw e refl ]

next_lem : (s : MessageBuffer) (q : List (List ℕ)) → Holds s q → available (some s) ≡ Spec.next q
unfolding available
next_lem s [] v = rw (next_len-empty s.ring v.ring_ok v.framed, available) refl
next_lem s (m ∷ q) v =
    rw (next_len-frame s.ring v.ring_ok m (frames q) (v.short.0) v.framed, available) refl

module _ (s : MessageBuffer) (q : List (List ℕ)) (v : Holds s q) where
  send_isr_refines :
      (m : List ℕ)
      → length m < 2 ^ 16
      → Answers s.ring.capacity (step (some s) (sends m)) (Spec.step s.ring.capacity q (sends m))
  unfolding step send_isr Spec.step
  send_isr_refines m h =
      let room = free-size s q v in
      let bound = available-le s.ring v.ring_ok in
      let same = available-size s q v in
      let wanted : add_size 2 (length m) ≡ 2 + length m = omega arith in
      elim (Bool-cases (length m == 0)) [
        | inl e ↦ rw e (refl, (v, refl))
        | inr e ↦ elim (lt-or-ge (ByteRing.free s.ring) (2 + length m)) [
          | inl full ↦
              rw
                (
                  e,
                  wanted,
                  lt→ltb (ByteRing.free s.ring) (2 + length m) full,
                  lt→leb_false (Spec.size q + 2 + length m) s.ring.capacity (omega arith),
                )
                (refl, (v, refl))
          | inr fits ↦
              rw
                (
                  e,
                  wanted,
                  le→ltb (ByteRing.free s.ring) (2 + length m) fits,
                  le→leb (Spec.size q + 2 + length m) s.ring.capacity (omega arith),
                )
                (refl, (put-Holds s q v m h fits, capacity-put s m))
        ]
      ]

  asks_refines : Answers s.ring.capacity (step (some s) asks) (Spec.step s.ring.capacity q asks)
  unfolding step available free_space Spec.step
  asks_refines =
      let room = free-size s q v in
      let bound = available-le s.ring v.ring_ok in
      let front : available (some s) ≡ Spec.next q = next_lem s q v in
      let left : free_space (some s) ≡ s.ring.capacity - Spec.size q - 2 =
        ground (arith, v.ring_ok.valid.small) in
      (ap₂ state front left, (v, refl))

  reset_refines :
      Answers s.ring.capacity (step (some s) resets) (Spec.step s.ring.capacity q resets)
  unfolding step reset Spec.step ByteRing.flush
  reset_refines =
      let sound : Laws.IsValid (ByteRing.flush s.ring) = flush-IsValid s.ring v.ring_ok in
      let empty : bytes (ByteRing.flush s.ring) ≡ [] = bytes-flush s.ring v.ring_ok in
      (refl, (record { ring_ok = sound; short = cc; framed = empty }, refl))

receive_isr_refines :
    (s : MessageBuffer) (q : List (List ℕ)) (max_len : ℕ)
    → Holds s q
    → Answers s.ring.capacity
        (step (some s) (receives max_len))
        (Spec.step s.ring.capacity q (receives max_len))
unfolding step receive_isr Spec.step
receive_isr_refines s [] max_len v = elim (Bool-cases (max_len == 0)) [
  | inl e ↦ rw e (refl, (v, refl))
  | inr e ↦ rw (e, next_len-empty s.ring v.ring_ok v.framed) (refl, (v, refl))
]
receive_isr_refines s (m ∷ q) max_len v = elim (Bool-cases (max_len == 0)) [
  | inl e ↦ rw e (refl, (v, refl))
  | inr e ↦
      let taken = consume-frame s.ring m (frames q) max_len v.ring_ok (v.short.0) v.framed in
      let n : min (length m) max_len ≡ length (take max_len m) =
        omega (arith, length-take max_len m) in
      rw (e, next_len-frame s.ring v.ring_ok m (frames q) (v.short.0) v.framed)
        (
          ap₂ delivered n taken.0,
          (
            record { ring_ok = taken.2; short = v.short.1; framed = taken.1 },
            capacity-consume s.ring (length m) max_len,
          ),
        )
]

step_refines :
    (capacity : ℕ) (h : Option MessageBuffer) (q : List (List ℕ)) (c : Call)
    → Serves capacity h q
    → Good c
    → Answers capacity (step h c) (Spec.step capacity q c)
step_refines capacity none q c v g = absurd v
step_refines capacity (some s) q (sends m) v g = rw (← v.1) (send_isr_refines s q (v.0) m g)
step_refines capacity (some s) q (receives n) v g = rw (← v.1) (receive_isr_refines s q n (v.0))
step_refines capacity (some s) q resets v g = rw (← v.1) (reset_refines s q (v.0))
step_refines capacity (some s) q asks v g = rw (← v.1) (asks_refines s q (v.0))

-- A client that sends messages of at most 65535 bytes, receives, queries and resets without blocking
-- sees, over any sequence of calls on a message buffer that holds the messages `q`, the replies of a
-- queue of messages: each message is taken whole or refused, and messages come out in order, each cut
-- only to the length that the receive asks for.
pub messages_refine :
    (capacity : ℕ) (cs : List Call) (h : Option MessageBuffer) (q : List (List ℕ))
    → Serves capacity h q
    → AllGood cs
    → run h cs ≡ Spec.run capacity q cs
unfolding run Spec.run
messages_refine capacity [] h q v g = refl
messages_refine capacity (c ∷ cs) h q v g =
    let a = step_refines capacity h q c v g.0 in
    rw (messages_refine capacity cs (step h c).1 (Spec.step capacity q c).1 a.1 g.1, ← a.0) refl
