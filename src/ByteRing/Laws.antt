-- ===== src/ByteRing/Laws.antt =====
-- The byte ring against the list of the bytes that it holds.
use micr_osal.Common.{
  ℕ, ◌+◌, ◌-◌, ◌≤◌, ◌<◌, ◌≡◌, refl, sym, ap, ◌∙◌, List, [], ◌++◌, arith, length, take, drop,
  max_object, take-append_left, drop-append_left,
}
use micr_osal.Ring.{slot, window, advance_index}
use micr_osal.Ring.Copy.{length-copy_in}
use micr_osal.Ring.Window.{advance_index-slot, copy_out-window, slot-lt, length-window}
use micr_osal.RingBuffer.{size}
use micr_osal.RingBuffer.Inv
use micr_osal.RingBuffer.Refine.{contents, length-contents, contents-copy_in, contents-split}
use micr_osal.ByteRing.{ByteRing, over, available, free, write, skip, peek, read, flush}

pub record IsValid (s : ByteRing) : Type 0 where
  pub valid : Inv.IsValid s.capacity s.ring
  pub sentinel : s.ring_size ≡ s.capacity + 1

-- The bytes held, oldest first.
abbrev pub bytes : ByteRing → List ℕ
bytes s = contents 0 s.capacity s.ring

pub over-IsValid :
    (storage : List ℕ) (capacity : ℕ)
    → 0 < capacity
    → capacity + 1 ≤ max_object
    → length storage ≡ capacity + 1
    → IsValid (over storage capacity)
over-IsValid storage capacity p h e = omega arith

pub bytes-over : (storage : List ℕ) (capacity : ℕ) → bytes (over storage capacity) ≡ []
bytes-over storage capacity = refl

module _ (s : ByteRing) (v : IsValid s) where
  available-size : available s ≡ size s.capacity s.ring
  available-size = rw (v.sentinel)

  pub length-bytes : length (bytes s) ≡ available s
  length-bytes = length-contents 0 s.capacity s.ring ∙ sym available-size

  pub available-le : available s ≤ s.capacity
  available-le = omega (arith, available-size, Inv.size-le s.capacity s.ring v.valid)

  -- The free space and the bytes held make up the capacity.
  pub free_lem : free s ≡ s.capacity - available s
  free_lem = omega (arith, available-le, v.valid.small)

  advance-slot :
      (i len : ℕ)
      → i < s.capacity + 1
      → len ≤ s.capacity
      → advance_index i len s.ring_size ≡ slot (s.capacity + 1) (i + len)
  advance-slot i len h p =
      rw (v.sentinel)
        (advance_index-slot (s.capacity + 1) i len (omega (arith, v.valid.small)) h (omega arith))

  -- A write that fits appends its bytes.
  pub bytes-write :
      (src : List ℕ) (len : ℕ)
      → len ≤ free s
      → len ≤ length src
      → bytes (write s src len) ≡ bytes s ++ take len src
  unfolding write
  bytes-write src len fits given =
      rw (advance-slot s.ring.head len v.valid.head_in (omega (arith, free_lem)), v.sentinel)
        (contents-copy_in 0 s.capacity s.ring v.valid src len
          (omega (arith, free_lem, available-le, available-size)) given)

  pub write-IsValid : (src : List ℕ) (len : ℕ) → len ≤ free s → IsValid (write s src len)
  unfolding write
  write-IsValid src len fits = record {
    valid = record {
      positive = v.valid.positive;
      small = v.valid.small;
      storage = length-copy_in s.ring_size s.ring.buf s.ring.head src len ∙ v.valid.storage;
      head_in =
          rw (advance-slot s.ring.head len v.valid.head_in (omega (arith, free_lem))) (
            slot-lt (s.capacity + 1) (s.ring.head + len)
              (omega (arith, v.valid.head_in, free_lem)));
      tail_in = v.valid.tail_in;
    };
    sentinel = v.sentinel;
  }

  -- The next bytes are at the front of those held.
  pub peek_lem : (len : ℕ) → len ≤ available s → peek s len ≡ take len (bytes s)
  unfolding peek
  peek_lem len h =
      let w = window 0 (s.capacity + 1) s.ring.buf s.ring.tail len in
      rw (v.sentinel) (
        copy_out-window 0 (s.capacity + 1) s.ring.buf s.ring.tail len (omega (arith, v.valid.small))
          (omega (arith, v.valid.storage)) v.valid.tail_in (omega (arith, available-le))
        ∙ sym (
            ap (λ q. take len q)
              (contents-split 0 s.capacity s.ring v.valid len (omega (arith, available-size)))
            ∙ take-append_left len w _
                (length-window 0 (s.capacity + 1) s.ring.buf s.ring.tail len)))

  -- A skip drops that many bytes from the front.
  pub bytes-skip : (len : ℕ) → len ≤ available s → bytes (skip s len) ≡ drop len (bytes s)
  unfolding skip
  bytes-skip len h =
      let w = window 0 (s.capacity + 1) s.ring.buf s.ring.tail len in
      rw (advance-slot s.ring.tail len v.valid.tail_in (omega (arith, available-le))) (
        sym (
          ap (λ q. drop len q)
            (contents-split 0 s.capacity s.ring v.valid len (omega (arith, available-size)))
          ∙ drop-append_left len w _ (length-window 0 (s.capacity + 1) s.ring.buf s.ring.tail len)))

  pub skip-IsValid : (len : ℕ) → len ≤ available s → IsValid (skip s len)
  unfolding skip
  skip-IsValid len h = record {
    valid = record {
      positive = v.valid.positive;
      small = v.valid.small;
      storage = v.valid.storage;
      head_in = v.valid.head_in;
      tail_in = rw (advance-slot s.ring.tail len v.valid.tail_in (omega (arith, available-le))) (
          slot-lt (s.capacity + 1) (s.ring.tail + len)
            (omega (arith, v.valid.tail_in, available-le)));
    };
    sentinel = v.sentinel;
  }

  -- A read is a peek and a skip.
  pub read_lem : (len : ℕ) → read s len ≡ (peek s len, skip s len)
  unfolding read peek skip
  read_lem len = refl

  pub flush-IsValid : IsValid (flush s)
  unfolding flush
  flush-IsValid = omega (arith, v.valid)

  pub bytes-flush : bytes (flush s) ≡ []
  unfolding flush
  bytes-flush =
      let z : size s.capacity (record (s.ring) { tail = s.ring.head }) ≡ 0 = ground arith in
      ap (λ k. window 0 (s.capacity + 1) s.ring.buf s.ring.head k) z
