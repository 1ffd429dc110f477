-- ===== src/Ring/Copy.antt =====
-- What the copies of a ring read and write, place by place.
use micr_osal.Common.{
  ℕ, zero, suc, ◌+◌, ◌-◌, ◌≤◌, ◌<◌, min, ◌≡◌, ◌⊎◌, inl, inr, refl, ◌∙◌, ap, List, [], ◌∷◌, get_or,
  set, drop, length, arith, length-set, get_or-set_self, get_or-set_ne, get_or-take, get_or-drop,
  length-take, length-drop, max_object, sub_size, lt-or-ge, lt→ltb, le→ltb,
}
use micr_osal.Ring.{slot, copy_to, slice, copy_in}

module _ {ℓ} {A : Type ℓ} where
  pub length-copy_to : (dst : List A) (i : ℕ) (xs : List A) → length (copy_to dst i xs) ≡ length dst
  unfolding copy_to
  length-copy_to dst i [] = refl
  length-copy_to dst i (x ∷ xs) = length-copy_to (set dst i x) (suc i) xs ∙ length-set dst i x

  -- A copy leaves alone what it does not cover.
  pub get_or-copy_to_outside :
      (dst : List A) (i : ℕ) (xs : List A) (j : ℕ) (d : A)
      → (j < i) ⊎ (i + length xs ≤ j)
      → get_or (copy_to dst i xs) j d ≡ get_or dst j d
  unfolding copy_to
  get_or-copy_to_outside dst i [] j d h = refl
  get_or-copy_to_outside dst i (x ∷ xs) j d h =
      get_or-copy_to_outside (set dst i x) (suc i) xs j d (ground arith)
      ∙ get_or-set_ne dst i j x d (ground arith)

  -- A copy into the bounds puts the source's items in their places.
  pub get_or-copy_to :
      (dst : List A) (i : ℕ) (xs : List A) (k : ℕ) (d : A)
      → i + length xs ≤ length dst
      → k < length xs
      → get_or (copy_to dst i xs) (i + k) d ≡ get_or xs k d
  unfolding copy_to
  get_or-copy_to dst i [] k d h p = absurd (omega arith)
  get_or-copy_to dst i (x ∷ xs) zero d h p =
      let e : i + zero ≡ i = omega arith in
      ap (λ j. get_or (copy_to (set dst i x) (suc i) xs) j d) e
      ∙ get_or-copy_to_outside (set dst i x) (suc i) xs i d (inl (omega arith))
      ∙ get_or-set_self dst i x d (omega arith)
  get_or-copy_to dst i (x ∷ xs) (suc k) d h p =
      let e : i + suc k ≡ suc i + k = omega arith in
      ap (λ j. get_or (copy_to (set dst i x) (suc i) xs) j d) e
      ∙ get_or-copy_to (set dst i x) (suc i) xs k d (omega (arith, length-set dst i x))
          (omega arith)

  pub length-slice : (src : List A) (i n : ℕ) → i + n ≤ length src → length (slice src i n) ≡ n
  length-slice src i n h = omega (arith, length-take n (drop i src), length-drop i src)

  pub get_or-slice :
      (src : List A) (i n k : ℕ) (d : A) → k < n → get_or (slice src i n) k d ≡ get_or src (i + k) d
  get_or-slice src i n k d h = get_or-take n k (drop i src) d h ∙ get_or-drop i k src d

  pub length-copy_in :
      (ring_size : ℕ) (buf : List A) (index : ℕ) (src : List A) (len : ℕ)
      → length (copy_in ring_size buf index src len) ≡ length buf
  unfolding copy_in
  length-copy_in ring_size buf index src len =
      let first = min len (sub_size ring_size index) in
      let buf₁ = copy_to buf index (slice src 0 first) in
      ground (
        arith,
        length-copy_to buf index (slice src 0 first),
        length-copy_to buf₁ 0 (slice src first (sub_size len first)),
      )

module _ {ℓ} {A : Type ℓ} (ring_size : ℕ) (buf : List A) (index : ℕ) (src : List A) (len : ℕ)
    (small : ring_size ≤ max_object + 1) (fits : ring_size ≤ length buf)
    (index_in : index < ring_size) (len_in : len ≤ ring_size) (given : len ≤ length src) where
  -- A block that ends before the storage does is one copy.
  copy_in_whole :
      index + len ≤ ring_size
      → copy_in ring_size buf index src len ≡ copy_to buf index (slice src 0 len)
  unfolding copy_in
  copy_in_whole h =
      let e : sub_size ring_size index ≡ ring_size - index = omega arith in
      let m : min len (ring_size - index) ≡ len = omega arith in
      rw (e, m, le→ltb len len (omega arith))

  -- A block that crosses the end is two.
  copy_in_split :
      ring_size < index + len
      → copy_in ring_size buf index src len
        ≡ copy_to
            (copy_to buf index (slice src 0 (ring_size - index)))
            0
            (slice src (ring_size - index) (len - (ring_size - index)))
  unfolding copy_in
  copy_in_split h =
      let e : sub_size ring_size index ≡ ring_size - index = omega arith in
      let m : min len (ring_size - index) ≡ ring_size - index = omega arith in
      let r : sub_size len (ring_size - index) ≡ len - (ring_size - index) = omega arith in
      rw (e, m, r, lt→ltb (ring_size - index) len (omega arith))

  -- The copy in two chunks puts item `k` of the source `k` places after `index`.
  pub get_or-copy_in :
      (k : ℕ) (d : A)
      → k < len
      → get_or (copy_in ring_size buf index src len) (slot ring_size (index + k)) d ≡ get_or src k d
  get_or-copy_in k d h =
      let room = ring_size - index in
      elim (lt-or-ge ring_size (index + len)) [
        | inr q ↦
            rw (copy_in_whole q, lt→ltb (index + k) ring_size (omega arith))
              (get_or-copy_to buf index (slice src 0 len) k d
                  (omega (arith, length-slice src 0 len)) (omega (arith, length-slice src 0 len))
                ∙ get_or-slice src 0 len k d h
                ∙ ap (λ j. get_or src j d) (omega arith))
        | inl q ↦ elim (lt-or-ge (index + k) ring_size) [
          | inl p ↦
              rw (copy_in_split q, lt→ltb (index + k) ring_size p)
                (get_or-copy_to_outside _ 0 (slice src room (len - room)) (index + k) d
                    (inr (omega (arith, length-slice src room (len - room))))
                  ∙ get_or-copy_to buf index (slice src 0 room) k d
                      (omega (arith, length-slice src 0 room))
                      (omega (arith, length-slice src 0 room))
                  ∙ get_or-slice src 0 room k d (omega arith)
                  ∙ ap (λ j. get_or src j d) (omega arith))
          | inr p ↦
              let e : index + k - ring_size ≡ 0 + (k - room) = omega arith in
              rw (copy_in_split q, le→ltb (index + k) ring_size p, e)
                (get_or-copy_to _ 0 (slice src room (len - room)) (k - room) d
                    (omega (
                      arith,
                      length-slice src room (len - room),
                      length-copy_to buf index (slice src 0 room),
                    ))
                    (omega (arith, length-slice src room (len - room)))
                  ∙ get_or-slice src room (len - room) (k - room) d (omega arith)
                  ∙ ap (λ j. get_or src j d) (omega arith))
        ]
      ]

  -- It leaves alone the other places.
  pub get_or-copy_in_outside :
      (n : ℕ) (d : A)
      → len ≤ n
      → n < ring_size
      → get_or (copy_in ring_size buf index src len) (slot ring_size (index + n)) d
        ≡ get_or buf (slot ring_size (index + n)) d
  get_or-copy_in_outside n d h p =
      let room = ring_size - index in
      elim (lt-or-ge ring_size (index + len)) [
        | inr q ↦ rw (copy_in_whole q) (
            get_or-copy_to_outside buf index (slice src 0 len) (slot ring_size (index + n)) d
              (ground (arith, length-slice src 0 len)))
        | inl q ↦ rw (copy_in_split q) (
            get_or-copy_to_outside _ 0 (slice src room (len - room)) (slot ring_size (index + n)) d
              (ground (arith, length-slice src room (len - room)))
            ∙ get_or-copy_to_outside buf index (slice src 0 room) (slot ring_size (index + n)) d
                (ground (arith, length-slice src 0 room)))
      ]
