-- ===== src/MessageBuffer/Frame.antt =====
-- Frames on the byte ring: a header of two bytes and the message.
use micr_osal.Common.{
  ℕ, ◌+◌, ◌-◌, ◌%◌, ◌^◌, ◌≤◌, ◌<◌, ◌≡◌, refl, sym, ap, ◌∙◌, List, [], ◌++◌, none, some, arith,
  length, take, drop, le→leb, le→ltb, lt→ltb, lt→leb_false, lt-or-ge, inl, inr, add_size, sub_size,
  append_assoc, take-append_left, drop-append_left, ap₂, length-drop, take-append-drop,
  length-append, length-take, take_all,
}
use micr_osal.Ring.{advance_index}
use micr_osal.ByteRing
use micr_osal.ByteRing.{ByteRing, write, skip, peek, read}
use micr_osal.ByteRing.Laws.{
  IsValid, bytes, length-bytes, free_lem, bytes-write, write-IsValid, peek_lem, read_lem,
  bytes-skip, skip-IsValid,
}
use micr_osal.MessageBuffer.{header, msg_len, write_frame, next_len, consume}

-- A message on the ring.
abbrev pub frame : List ℕ → List ℕ
frame m = header (length m) ++ m

pub msg_len-header :
    (len : ℕ) (rest : List ℕ) → msg_len (take 2 (header len ++ rest)) ≡ len % 2 ^ 16
msg_len-header len rest = omega arith

module _ (r : ByteRing) (v : IsValid r) where
  -- A frame's two copies and its one store of the head are two writes.
  write_frame_lem :
      (h m : List ℕ) (i j : ℕ)
      → i + j ≤ ByteRing.free r
      → write_frame r h i m j ≡ write (write r h i) m j
  unfolding write_frame write
  write_frame_lem h m i j fits =
      let bound = free_lem r v in
      let once : advance_index r.ring.head (add_size i j) r.ring_size
          ≡ advance_index (advance_index r.ring.head i r.ring_size) j r.ring_size =
        ground (arith, v.sentinel, v.valid.small, v.valid.head_in) in
      rw once refl

  -- What a write that fits leaves free.
  free-write :
      (src : List ℕ) (len : ℕ)
      → len ≤ ByteRing.free r
      → len ≤ length src
      → ByteRing.free (write r src len) ≡ ByteRing.free r - len
  unfolding write
  free-write src len fits given =
      let w = write r src len in
      let v' = write-IsValid r v src len fits in
      let after : length (bytes w) ≡ length (bytes r) + length (take len src) =
        ap length (bytes-write r v src len fits given) ∙ length-append (bytes r) (take len src) in
      let same = length-bytes w v' in
      let free' = free_lem w v' in
      omega (arith, after, length-take len src, length-bytes r v, free_lem r v, same, free')

  -- A frame that fits is appended.
  pub bytes-write_frame :
      (m : List ℕ)
      → 2 + length m ≤ ByteRing.free r
      → let r' = write_frame r (header (length m)) 2 m (length m) in
        (bytes r' ≡ bytes r ++ frame m) × IsValid r'
  bytes-write_frame m fits =
      let h = header (length m) in
      let v₁ = write-IsValid r v h 2 (omega arith) in
      let b₁ = bytes-write r v h 2 (omega arith) (omega arith) in
      let room : length m ≤ ByteRing.free (write r h 2) =
        omega (arith, free-write h 2 (omega arith) (omega arith)) in
      rw (write_frame_lem h m 2 (length m) fits) (
        bytes-write (write r h 2) v₁ m (length m) room (omega arith)
            ∙ ap₂ (λ a b. a ++ b) b₁ (take_all (length m) m (omega arith))
            ∙ append_assoc (bytes r) h m,
        write-IsValid (write r h 2) v₁ m (length m) room,
      )

  -- The front message's length, where the ring begins with its frame.
  pub next_len-frame :
      (m rest : List ℕ)
      → length m < 2 ^ 16
      → bytes r ≡ frame m ++ rest
      → next_len r ≡ some (length m)
  unfolding next_len
  next_len-frame m rest short e =
      let h = header (length m) in
      let total : ByteRing.available r ≡ 2 + length m + length rest =
        omega (arith, length-bytes r v, ap length e, length-append (frame m) rest) in
      let first : msg_len (peek r 2) ≡ length m =
        ap msg_len (peek_lem r v 2 (omega arith) ∙ ap (take 2) e) ∙ omega arith in
      rw (first, le→ltb (ByteRing.available r) 2 (omega arith))
        (rw (le→ltb (ByteRing.available r) (add_size 2 (length m)) (omega arith)) refl)

  pub next_len-empty : bytes r ≡ [] → next_len r ≡ none
  unfolding next_len
  next_len-empty e =
      let total : ByteRing.available r ≡ 0 = sym (length-bytes r v) ∙ ap length e in
      rw (lt→ltb (ByteRing.available r) 2 (omega arith)) refl

-- The ring after `len` bytes that stand at its front are skipped.
skip-front :
    (r : ByteRing) (front rest : List ℕ)
    → IsValid r
    → bytes r ≡ front ++ rest
    → let r' = skip r (length front) in
      (length front ≤ ByteRing.available r) × (bytes r' ≡ rest) × IsValid r'
skip-front r front rest v e =
    let total : ByteRing.available r ≡ length front + length rest =
      sym (length-bytes r v) ∙ ap length e ∙ length-append front rest in
    let within : length front ≤ ByteRing.available r = omega arith in
    (
      within,
      bytes-skip r v (length front) within
          ∙ ap (drop (length front)) e
          ∙ drop-append_left (length front) front rest refl,
      skip-IsValid r v (length front) within,
    )

-- The bytes read where they stand at the ring's front.
read-front :
    (r : ByteRing) (front rest : List ℕ)
    → IsValid r
    → bytes r ≡ front ++ rest
    → read r (length front) ≡ (front, skip r (length front))
read-front r front rest v e =
    let s = skip-front r front rest v e in
    read_lem r v (length front)
    ∙ ap (λ x. (x, skip r (length front)))
        (peek_lem r v (length front) s.0
          ∙ ap (take (length front)) e
          ∙ take-append_left (length front) front rest refl)

-- Taking a message off the ring gives its beginning, as much as is asked for, and leaves what stood
-- behind its frame.
pub consume-frame :
    (r : ByteRing) (m rest : List ℕ) (max_len : ℕ)
    → IsValid r
    → length m < 2 ^ 16
    → bytes r ≡ frame m ++ rest
    → let (got, r') = consume r (length m) max_len in
      (got ≡ take max_len m) × (bytes r' ≡ rest) × IsValid r'
unfolding consume
consume-frame r m rest max_len v short e =
    let h = header (length m) in
    let body = skip-front r h (m ++ rest) v (e ∙ append_assoc h m rest) in
    elim (lt-or-ge max_len (length m)) [
      | inr whole ↦
          let all = skip-front (skip r 2) m rest body.2 body.1 in
          rw (le→leb (length m) max_len whole, read-front (skip r 2) m rest body.2 body.1)
            (sym (take_all max_len m whole), all.1, all.2)
      | inl short_buf ↦
          let front = take max_len m in
          let back = drop max_len m in
          let cut : bytes (skip r 2) ≡ front ++ (back ++ rest) =
            body.1
            ∙ ap (λ x. x ++ rest) (sym (take-append-drop max_len m))
            ∙ append_assoc front back rest in
          let n : length front ≡ max_len = omega (arith, length-take max_len m) in
          let k : sub_size (length m) max_len ≡ length back =
            omega (arith, length-drop max_len m) in
          let got = skip-front (skip r 2) front (back ++ rest) body.2 cut in
          let left = skip-front (skip (skip r 2) (length front)) back rest got.2 got.1 in
          let reading : read (skip r 2) max_len ≡ (front, skip (skip r 2) (length front)) =
            ap (read (skip r 2)) (sym n) ∙ read-front (skip r 2) front (back ++ rest) body.2 cut in
          rw (lt→leb_false (length m) max_len short_buf, reading, k) (refl, left.1, left.2)
    ]
