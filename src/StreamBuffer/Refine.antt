-- ===== src/StreamBuffer/Refine.antt =====
-- The calls that do not block, against the queue of the bytes that the buffer holds.
use micr_osal.ByteRing.Laws.{bytes-flush, flush-IsValid}
use micr_osal.StreamBuffer.{step, run}
use micr_osal.Common.{
  ℕ, ◌+◌, ◌≤◌, ◌<◌, ◌≡◌, refl, ap, ap₂, ◌∙◌, List, [], ◌∷◌, ◌++◌, Option, none, some, arith, ltb,
  ◌==◌, length, take, drop, min, Bool-cases, inl, inr, take_all, lt-or-ge, lt→ltb, le→ltb, le→leb,
  lt→leb_false,
}
use micr_osal.Error.{ok}
use micr_osal.Semaphore.{Semaphore, give}
use micr_osal.ByteRing
use micr_osal.ByteRing.Laws
use micr_osal.ByteRing.Laws.{
  bytes, length-bytes, available-le, free_lem, bytes-write, write-IsValid, peek_lem, read_lem,
  bytes-skip, skip-IsValid,
}
use micr_osal.StreamBuffer.{
  StreamBuffer, put, get, send_isr, receive_isr, available, free_space, reset,
}
use micr_osal.StreamBuffer.Spec
use micr_osal.StreamBuffer.Spec.{
  Call, sends, receives, resets, asks, Reply, answered, delivered, state,
}

-- The ring is sound and both semaphores are binary.
pub record IsValid (s : StreamBuffer) : Type 0 where
  pub ring_ok : Laws.IsValid s.ring
  pub trigger_positive : 0 < s.trigger
  pub data_binary : s.data_sem.max_count ≡ 1
  pub data_bound : s.data_sem.count ≤ 1
  pub space_binary : s.space_sem.max_count ≡ 1
  pub space_bound : s.space_sem.count ≤ 1

abbrev pub held : StreamBuffer → List ℕ
held s = bytes s.ring

pub give-binary :
    (m : Semaphore)
    → m.max_count ≡ 1
    → m.count ≤ 1
    → ((give m).1.max_count ≡ 1) × ((give m).1.count ≡ 1)
unfolding give
give-binary m e h = ground arith

module _ (s : StreamBuffer) (v : IsValid s) where
  -- A send that fits appends its bytes and leaves a token for the consumer.
  pub put_lem :
      (src : List ℕ)
      → length src ≤ ByteRing.free s.ring
      → (held (put s src) ≡ held s ++ src) × ((put s src).data_sem.count ≡ 1) × IsValid (put s src)
  unfolding put
  put_lem src fits =
      let tokens = give-binary s.data_sem v.data_binary v.data_bound in
      (
        bytes-write s.ring v.ring_ok src (length src) fits (omega arith)
            ∙ ap (λ q. held s ++ q) (take_all (length src) src (omega arith)),
        tokens.1,
        record {
          ring_ok = write-IsValid s.ring v.ring_ok src (length src) fits;
          trigger_positive = v.trigger_positive;
          data_binary = tokens.0;
          data_bound = omega (arith, tokens.1);
          space_binary = v.space_binary;
          space_bound = v.space_bound;
        },
      )

  -- A receive takes the oldest bytes, as many as are asked for if they are there, and leaves a token
  -- for the producer.
  pub get_lem :
      (max_len : ℕ)
      → let n = min (ByteRing.available s.ring) max_len in
        ((get s max_len).0 ≡ take n (held s))
        × (held (get s max_len).1 ≡ drop n (held s))
        × ((get s max_len).1.space_sem.count ≡ 1)
        × IsValid (get s max_len).1
  unfolding get
  get_lem max_len =
      let tokens = give-binary s.space_sem v.space_binary v.space_bound in
      let n = min (ByteRing.available s.ring) max_len in
      let within : n ≤ ByteRing.available s.ring = omega arith in
      rw (read_lem s.ring v.ring_ok n) (
        peek_lem s.ring v.ring_ok n within,
        bytes-skip s.ring v.ring_ok n within,
        tokens.1,
        record {
          ring_ok = skip-IsValid s.ring v.ring_ok n within;
          trigger_positive = v.trigger_positive;
          data_binary = v.data_binary;
          data_bound = v.data_bound;
          space_binary = tokens.0;
          space_bound = omega (arith, tokens.1);
        },
      )

-- The object behind a handle is sound and has this capacity and trigger level.
abbrev pub Serves : ℕ → ℕ → Option StreamBuffer → Type 0
Serves capacity trigger none = ⊥
Serves capacity trigger (some s) = IsValid s × (s.ring.capacity ≡ capacity) × (s.trigger ≡ trigger)

abbrev pub held_by : Option StreamBuffer → List ℕ
held_by none = []
held_by (some s) = held s

-- A reply and the bytes left are those of the specification, and the object still serves.
abbrev Answers : ℕ → ℕ → Spec.Reply × Option StreamBuffer → Spec.Reply × List ℕ → Type 0
Answers capacity trigger (reply, h) expected =
    ((reply, held_by h) ≡ expected) × Serves capacity trigger h

capacity-put :
    (s : StreamBuffer) (src : List ℕ)
    → ((put s src).ring.capacity ≡ s.ring.capacity) × ((put s src).trigger ≡ s.trigger)
unfolding put ByteRing.write
capacity-put s src = (refl, refl)

capacity-get :
    (s : StreamBuffer) (m : ℕ)
    → ((get s m).1.ring.capacity ≡ s.ring.capacity) × ((get s m).1.trigger ≡ s.trigger)
unfolding get ByteRing.read
capacity-get s m = (refl, refl)

module _ (s : StreamBuffer) (v : IsValid s) where
  send_isr_refines :
      (src : List ℕ)
      → Answers s.ring.capacity s.trigger
          (step (some s) (sends src))
          (Spec.step s.ring.capacity s.trigger (held s) (sends src))
  unfolding step send_isr Spec.step
  send_isr_refines src =
      let same = length-bytes s.ring v.ring_ok in
      let room = free_lem s.ring v.ring_ok in
      let bound = available-le s.ring v.ring_ok in
      elim (Bool-cases (length src == 0)) [
        | inl e ↦ rw e (refl, (v, refl, refl))
        | inr e ↦ elim (lt-or-ge (ByteRing.free s.ring) (length src)) [
          | inl full ↦
              rw
                (
                  e,
                  lt→ltb (ByteRing.free s.ring) (length src) full,
                  same,
                  lt→leb_false (ByteRing.available s.ring + length src) s.ring.capacity
                      (omega arith),
                )
                (refl, (v, refl, refl))
          | inr fits ↦
              let p = put_lem s v src fits in
              rw
                (
                  e,
                  le→ltb (ByteRing.free s.ring) (length src) fits,
                  same,
                  le→leb (ByteRing.available s.ring + length src) s.ring.capacity (omega arith),
                )
                (
                  ap (λ q. (answered ok, q)) p.0,
                  (p.2, (capacity-put s src).0, (capacity-put s src).1),
                )
        ]
      ]

  receive_isr_refines :
      (max_len : ℕ)
      → Answers s.ring.capacity s.trigger
          (step (some s) (receives max_len))
          (Spec.step s.ring.capacity s.trigger (held s) (receives max_len))
  unfolding step receive_isr Spec.step
  receive_isr_refines max_len =
      let same = length-bytes s.ring v.ring_ok in
      elim (Bool-cases (max_len == 0)) [
        | inl e ↦ rw e (refl, (v, refl, refl))
        | inr e ↦ elim (Bool-cases (ltb (ByteRing.available s.ring) s.trigger)) [
          | inl low ↦ rw (e, same, low) (refl, (v, refl, refl))
          | inr high ↦
              let g = get_lem s v max_len in
              rw (e, same, high)
                (
                  ap₂ (λ xs q. (delivered xs, q)) g.0 g.1,
                  (g.3, (capacity-get s max_len).0, (capacity-get s max_len).1),
                )
        ]
      ]

  reset_refines :
      Answers s.ring.capacity s.trigger
        (step (some s) resets)
        (Spec.step s.ring.capacity s.trigger (held s) resets)
  unfolding step reset Spec.step ByteRing.flush
  reset_refines =
      let sound : Laws.IsValid (ByteRing.flush s.ring) = flush-IsValid s.ring v.ring_ok in
      let kept : IsValid (record s { ring = ByteRing.flush s.ring }) = record {
        ring_ok = sound;
        trigger_positive = v.trigger_positive;
        data_binary = v.data_binary;
        data_bound = v.data_bound;
        space_binary = v.space_binary;
        space_bound = v.space_bound;
      } in
      (ap (λ q. (answered ok, q)) (bytes-flush s.ring v.ring_ok), (kept, refl, refl))

  asks_refines :
      Answers s.ring.capacity s.trigger
        (step (some s) asks)
        (Spec.step s.ring.capacity s.trigger (held s) asks)
  unfolding step available free_space Spec.step
  asks_refines =
      rw (free_lem s.ring v.ring_ok, length-bytes s.ring v.ring_ok) (refl, (v, refl, refl))

  step_refines :
      (c : Call)
      → Answers s.ring.capacity s.trigger
          (step (some s) c)
          (Spec.step s.ring.capacity s.trigger (held s) c)
  step_refines (sends src) = send_isr_refines src
  step_refines (receives max_len) = receive_isr_refines max_len
  step_refines resets = reset_refines
  step_refines asks = asks_refines

Serves-refines :
    (capacity trigger : ℕ) (h : Option StreamBuffer) (c : Call)
    → Serves capacity trigger h
    → Answers capacity trigger (step h c) (Spec.step capacity trigger (held_by h) c)
Serves-refines capacity trigger none c v = absurd v
Serves-refines capacity trigger (some s) c v = rw (← v.1, ← v.2) (step_refines s v.0 c)

-- A client that sends, receives, queries and resets without blocking sees, over any sequence of
-- calls on a sound stream buffer, the replies of a queue of at most `capacity` bytes: each send is
-- taken whole or refused, and a receive below the trigger level gets nothing.
pub client_refines :
    (capacity trigger : ℕ) (cs : List Call) (h : Option StreamBuffer)
    → Serves capacity trigger h
    → run h cs ≡ Spec.run capacity trigger (held_by h) cs
unfolding run Spec.run
client_refines capacity trigger [] h v = refl
client_refines capacity trigger (c ∷ cs) h v =
    let a = Serves-refines capacity trigger h c v in
    rw (client_refines capacity trigger cs (step h c).1 a.1, ← a.0)
