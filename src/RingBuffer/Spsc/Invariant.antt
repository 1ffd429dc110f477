-- ===== src/RingBuffer/Spsc/Invariant.antt =====
-- What every interleaving keeps: each thread's registers still fit the shared indices.
use micr_osal.Common.{
  ℕ, ◌+◌, ◌≤◌, ◌<◌, ◌≡◌, ◌≢◌, refl, sym, ap, ◌∙◌, List, [], ◌∷◌, ◌++◌, arith, false, max_object,
  ◌==◌, get_or, set, Bool-cases, inl, inr, ==→ne, length-set, get_or-set_self, get_or-set_ne,
  tabulate_ext, append_assoc,
}
use micr_osal.Ring.{slot, window}
use micr_osal.Ring.Window.{window-add, slot-lt}
use micr_osal.RingBuffer.{RingBuffer, size, increment, fresh}
use micr_osal.RingBuffer.Inv.{IsValid, head-slot, increment-slot, size-le, full_iff, fresh-IsValid}
use micr_osal.RingBuffer.Refine.{contents, contents-split, size-moved_head, size-moved_tail}
use micr_osal.RingBuffer.Spsc.{
  Producer, resting, has_room, stored, Consumer, waiting, has_item, loaded, System, Turn, produce,
  consume, producer_step, consumer_step, turn, interleave, start,
}

module _ {ℓ} {A : Type ℓ} (d : A) (n : ℕ) where
  -- A producer past its test still has room at the index it read, whatever the consumer did since.
  abbrev pub ProducerFits : RingBuffer A → Producer A → Type ℓ
  ProducerFits r resting = Unit
  ProducerFits r (has_room x h) = (h ≡ r.head) × (size n r < n) × Unit {ℓ}
  ProducerFits r (stored x h) = (h ≡ r.head) × (size n r < n) × (get_or r.buf h d ≡ x)

  abbrev pub ConsumerFits : RingBuffer A → Consumer A → Type ℓ
  ConsumerFits r waiting = Unit
  ConsumerFits r (has_item t) = (t ≡ r.tail) × (0 < size n r) × Unit {ℓ}
  ConsumerFits r (loaded x t) = (t ≡ r.tail) × (0 < size n r) × (get_or r.buf t d ≡ x)

  pub record Inv (s : System A) : Type ℓ where
    pub valid : IsValid n s.ring
    pub history : s.pushed ≡ s.popped ++ contents d n s.ring
    pub producer_fits : ProducerFits s.ring s.producer
    pub consumer_fits : ConsumerFits s.ring s.consumer

  -- What the consumer holds stays right while the tail and the slot there are left alone.
  ConsumerFits-kept :
      (r r' : RingBuffer A) (c : Consumer A)
      → r'.tail ≡ r.tail
      → size n r ≤ size n r'
      → (0 < size n r → get_or r'.buf r.tail d ≡ get_or r.buf r.tail d)
      → ConsumerFits r c
      → ConsumerFits r' c
  ConsumerFits-kept r r' waiting e le same f = f
  ConsumerFits-kept r r' (has_item t) e le same f = (f.0 ∙ sym e, omega arith, tt)
  ConsumerFits-kept r r' (loaded x t) e le same f = (
    f.0 ∙ sym e,
    omega arith,
    ap (λ j. get_or r'.buf j d) f.0 ∙ same f.1 ∙ ap (λ j. get_or r.buf j d) (sym f.0) ∙ f.2,
  )

  ProducerFits-kept :
      (r r' : RingBuffer A) (p : Producer A)
      → r'.head ≡ r.head
      → r'.buf ≡ r.buf
      → size n r' ≤ size n r
      → ProducerFits r p
      → ProducerFits r' p
  ProducerFits-kept r r' resting e same le f = f
  ProducerFits-kept r r' (has_room x h) e same le f = (f.0 ∙ sym e, omega arith, tt)
  ProducerFits-kept r r' (stored x h) e same le f =
      (f.0 ∙ sym e, omega arith, ap (λ b. get_or b h d) same ∙ f.2)

  -- The free slot at the head is not among the contents.
  contents-set_free :
      (r : RingBuffer A) (x : A)
      → IsValid n r
      → size n r < n
      → contents d n (record r { buf = set r.buf r.head x }) ≡ contents d n r
  contents-set_free r x v h = tabulate_ext (size n r) _ _ (λ k p.
      get_or-set_ne r.buf r.head (slot (n + 1) (r.tail + k)) x d (ground (arith, head-slot n r v)))

  -- Publishing the slot at the head appends its item to the contents.
  contents-publish :
      (r : RingBuffer A)
      → IsValid n r
      → size n r < n
      → contents d n (record r { head = slot (n + 1) (r.head + 1) })
        ≡ contents d n r ++ (get_or r.buf r.head d ∷ [])
  contents-publish r v h =
      ap (λ k. window d (n + 1) r.buf r.tail k) (size-moved_head n r v r.buf 1 (omega arith))
      ∙ window-add d (n + 1) r.buf r.tail (size n r) 1 v.tail_in (omega arith)
      ∙ ap (λ j. contents d n r ++ (get_or r.buf j d ∷ [])) (ground (arith, head-slot n r v))

  differ : (r : RingBuffer A) → IsValid n r → 0 < size n r → r.head ≢ r.tail
  differ r v h = ground arith

  slot-start : (ring_size i : ℕ) → i < ring_size → slot ring_size (i + 0) ≡ i
  slot-start ring_size i h = ground arith

  producer_step-Inv :
      (p : Producer A) (s : System A) (x : A)
      → ProducerFits s.ring p
      → Inv s
      → Inv (producer_step n p s x)
  unfolding producer_step
  producer_step-Inv resting s x f v = elim (Bool-cases (increment n s.ring.head == s.ring.tail)) [
    | inl e ↦ rw e v
    | inr e ↦ rw e (record {
      valid = v.valid;
      history = v.history;
      producer_fits = (refl, room e, tt);
      consumer_fits = v.consumer_fits;
    })
  ]
    where
      room : increment n s.ring.head == s.ring.tail ≡ false → size n s.ring < n
      room e = omega (
        arith,
        size-le n s.ring v.valid,
        ==→ne (size n s.ring) n (sym (full_iff n s.ring v.valid) ∙ e),
      )
  producer_step-Inv (has_room x h) s y f v =
      let r = s.ring in
      let r' : RingBuffer A = record r { buf = set r.buf r.head x } in
      rw (f.0) (record {
        valid = record {
          positive = v.valid.positive;
          small = v.valid.small;
          storage = length-set r.buf r.head x ∙ v.valid.storage;
          head_in = v.valid.head_in;
          tail_in = v.valid.tail_in;
        };
        history = v.history ∙ ap (λ q. s.popped ++ q) (sym (contents-set_free r x v.valid f.1));
        producer_fits =
            (refl, f.1, get_or-set_self r.buf r.head x d (omega (arith, v.valid.storage)));
        consumer_fits =
            ConsumerFits-kept r r' s.consumer refl (omega arith)
              (λ p. get_or-set_ne r.buf r.head r.tail x d (differ r v.valid p)) v.consumer_fits;
      })
  producer_step-Inv (stored x h) s y f v =
      let r = s.ring in
      let r' : RingBuffer A = record r { head = slot (n + 1) (r.head + 1) } in
      let x_there : get_or r.buf r.head d ≡ x = ap (λ j. get_or r.buf j d) (sym (f.0)) ∙ f.2 in
      rw (f.0, increment-slot n r v.valid r.head v.valid.head_in)
        (record {
          valid = record {
            positive = v.valid.positive;
            small = v.valid.small;
            storage = v.valid.storage;
            head_in =
                slot-lt (n + 1) (r.head + 1) (omega (arith, v.valid.head_in, v.valid.positive));
            tail_in = v.valid.tail_in;
          };
          history =
              ap (λ q. q ++ (x ∷ [])) v.history
              ∙ append_assoc s.popped (contents d n r) (x ∷ [])
              ∙ ap (λ q. s.popped ++ q)
                  (ap (λ y. contents d n r ++ (y ∷ [])) (sym x_there)
                    ∙ sym (contents-publish r v.valid f.1));
          producer_fits = tt;
          consumer_fits =
              ConsumerFits-kept r r' s.consumer refl
                (omega (arith, size-moved_head n r v.valid r.buf 1 (omega (arith, f.1))))
                (λ p. refl) v.consumer_fits;
        })

  consumer_step-Inv :
      (c : Consumer A) (s : System A) → ConsumerFits s.ring c → Inv s → Inv (consumer_step d n c s)
  unfolding consumer_step
  consumer_step-Inv waiting s f v = elim (Bool-cases (s.ring.tail == s.ring.head)) [
    | inl e ↦ rw e v
    | inr e ↦ rw e (record {
      valid = v.valid;
      history = v.history;
      producer_fits = v.producer_fits;
      consumer_fits = (refl, some_item e v.valid, tt);
    })
  ]
    where
      some_item : s.ring.tail == s.ring.head ≡ false → IsValid n s.ring → 0 < size n s.ring
      some_item e w = ground arith
  consumer_step-Inv (has_item t) s f v = record {
    valid = v.valid;
    history = v.history;
    producer_fits = v.producer_fits;
    consumer_fits = (f.0, f.1, refl);
  }
  consumer_step-Inv (loaded x t) s f v =
      let r = s.ring in
      let r' : RingBuffer A = record r { tail = slot (n + 1) (r.tail + 1) } in
      let start_slot : slot (n + 1) (r.tail + 0) ≡ t =
        slot-start (n + 1) r.tail v.valid.tail_in ∙ sym (f.0) in
      rw (f.0, increment-slot n r v.valid r.tail v.valid.tail_in)
        (record {
          valid = record {
            positive = v.valid.positive;
            small = v.valid.small;
            storage = v.valid.storage;
            head_in = v.valid.head_in;
            tail_in =
                slot-lt (n + 1) (r.tail + 1) (omega (arith, v.valid.tail_in, v.valid.positive));
          };
          history =
              v.history
              ∙ ap (λ q. s.popped ++ q)
                  (contents-split d n r v.valid 1 f.1
                    ∙ ap (λ y. y ∷ contents d n r') (ap (λ j. get_or r.buf j d) start_slot ∙ f.2))
              ∙ sym (append_assoc s.popped (x ∷ []) (contents d n r'));
          producer_fits =
              ProducerFits-kept r r' s.producer refl refl
                (omega (arith, size-moved_tail n r v.valid 1 f.1)) v.producer_fits;
          consumer_fits = tt;
        })

  pub turn-Inv : (s : System A) (t : Turn A) → Inv s → Inv (turn d n s t)
  unfolding turn
  turn-Inv s (produce x) v = producer_step-Inv s.producer s x v.producer_fits v
  turn-Inv s consume v = consumer_step-Inv s.consumer s v.consumer_fits v

  pub interleave-Inv : (s : System A) (ts : List (Turn A)) → Inv s → Inv (interleave d n s ts)
  unfolding interleave
  interleave-Inv s [] v = v
  interleave-Inv s (t ∷ ts) v = interleave-Inv (turn d n s t) ts (turn-Inv s t v)

  pub start-Inv : 0 < n → n + 1 ≤ max_object → Inv (start d n)
  unfolding start fresh
  start-Inv p h = record {
    valid = fresh-IsValid d n p h;
    history = refl;
    producer_fits = tt;
    consumer_fits = tt;
  }
