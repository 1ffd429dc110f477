-- ===== src/Ring/Window.antt =====
-- The items between two indices of a ring, and what copies in and out of it do to them.
use micr_osal.Common.{
  ℕ, ◌+◌, ◌-◌, ◌≤◌, ◌<◌, min, ◌≡◌, inl, inr, ◌∙◌, sym, ap, ap₂, List, [], ◌∷◌, ◌++◌, get_or, set,
  take, length, arith, get_or-set_self, get_or-set_ne, max_object, sub_size, lt-or-ge, lt→ltb,
  le→ltb, tabulate_ext, tabulate-add, tabulate-take, length-tabulate, list_ext, get_or-tabulate,
}
use micr_osal.Ring.{slot, slice, copy_in, copy_out, window, advance_index}
use micr_osal.Ring.Copy.{get_or-copy_in, get_or-copy_in_outside, length-slice, get_or-slice}

pub slot-lt : (ring_size i : ℕ) → i < ring_size + ring_size → slot ring_size i < ring_size
slot-lt ring_size i h = ground arith

-- Going on from an index that has gone round is going on from where it came.
pub slot-slot :
    (ring_size t n k : ℕ)
    → t < ring_size
    → n + k ≤ ring_size
    → slot ring_size (slot ring_size (t + n) + k) ≡ slot ring_size (t + (n + k))
slot-slot ring_size t n k h p = ground arith

pub advance_index-slot :
    (ring_size index len : ℕ)
    → ring_size ≤ max_object + 1
    → index < ring_size
    → len ≤ ring_size
    → advance_index index len ring_size ≡ slot ring_size (index + len)
advance_index-slot ring_size index len small h p = ground arith

module _ {ℓ} {A : Type ℓ} (d : A) where
  pub length-window :
      (ring_size : ℕ) (buf : List A) (t n : ℕ) → length (window d ring_size buf t n) ≡ n
  length-window ring_size buf t n = length-tabulate n (λ k. get_or buf (slot ring_size (t + k)) d)

  -- A window is its first part and a window from where that ends.
  pub window-add :
      (ring_size : ℕ) (buf : List A) (t m n : ℕ)
      → t < ring_size
      → m + n ≤ ring_size
      → window d ring_size buf t (m + n)
        ≡ window d ring_size buf t m ++ window d ring_size buf (slot ring_size (t + m)) n
  window-add ring_size buf t m n h p =
      tabulate-add m n (λ k. get_or buf (slot ring_size (t + k)) d)
      ∙ ap (λ ys. window d ring_size buf t m ++ ys)
          (tabulate_ext n _ _
            (λ k q. ap (λ j. get_or buf j d) (sym (slot-slot ring_size t m k h (omega arith)))))

  -- Copying a block in behind a window extends the window by that block.
  pub window-copy_in :
      (ring_size : ℕ) (buf : List A) (t n : ℕ) (src : List A) (len : ℕ)
      → ring_size ≤ max_object + 1
      → ring_size ≤ length buf
      → t < ring_size
      → n + len ≤ ring_size
      → len ≤ length src
      → window d ring_size (copy_in ring_size buf (slot ring_size (t + n)) src len) t (n + len)
        ≡ window d ring_size buf t n ++ take len src
  window-copy_in ring_size buf t n src len small fits h p given =
      let head = slot ring_size (t + n) in
      let head_in : head < ring_size = slot-lt ring_size (t + n) (omega arith) in
      let buf' = copy_in ring_size buf head src len in
      window-add ring_size buf' t n len h p
      ∙ ap₂ ◌++◌
          (tabulate_ext n _ _ (λ k q.
            let back : slot ring_size (t + k) ≡ slot ring_size (head + (ring_size - n + k)) =
              ground arith in
            ap (λ j. get_or buf' j d) back
            ∙ get_or-copy_in_outside ring_size buf head src len small fits head_in (omega arith)
                given (ring_size - n + k) d (omega arith) (omega arith)
            ∙ ap (λ j. get_or buf j d) (sym back)))
          (tabulate_ext len _ _ (λ k q.
              get_or-copy_in ring_size buf head src len small fits head_in (omega arith) given k d
                q)
            ∙ tabulate-take len src d given)

  -- Writing one item behind a window extends the window by it.
  pub window-set :
      (ring_size : ℕ) (buf : List A) (t n : ℕ) (x : A)
      → ring_size ≤ length buf
      → t < ring_size
      → n < ring_size
      → window d ring_size (set buf (slot ring_size (t + n)) x) t (n + 1)
        ≡ window d ring_size buf t n ++ (x ∷ [])
  window-set ring_size buf t n x fits h p =
      let head = slot ring_size (t + n) in
      let head_in : head < ring_size = slot-lt ring_size (t + n) (omega arith) in
      tabulate-add n 1 (λ k. get_or (set buf head x) (slot ring_size (t + k)) d)
      ∙ ap₂ ◌++◌
          (tabulate_ext n _ _
            (λ k q. get_or-set_ne buf head (slot ring_size (t + k)) x d (ground arith)))
          (ap (λ j. get_or (set buf head x) (slot ring_size (t + j)) d ∷ []) {x = n + 0} {y = n}
              (omega arith)
            ∙ ap (λ y. y ∷ []) (get_or-set_self buf head x d (omega arith)))

  -- A block that does not reach the end of the storage is a window.
  slice-window :
      (ring_size : ℕ) (buf : List A) (index n : ℕ)
      → ring_size ≤ length buf
      → index + n ≤ ring_size
      → slice buf index n ≡ window d ring_size buf index n
  slice-window ring_size buf index n fits h =
      list_ext _ _ d
        (length-slice buf index n (omega arith) ∙ sym (length-window ring_size buf index n))
        (λ k r.
          let s : k < n = omega (arith, length-slice buf index n) in
          let same : index + k ≡ slot ring_size (index + k) = ground arith in
          get_or-slice buf index n k d s
          ∙ ap (λ j. get_or buf j d) same
          ∙ sym (get_or-tabulate n (λ j. get_or buf (slot ring_size (index + j)) d) k d s))

  -- A copy out reads the window from its index on.
  pub copy_out-window :
      (ring_size : ℕ) (buf : List A) (index len : ℕ)
      → ring_size ≤ max_object + 1
      → ring_size ≤ length buf
      → index < ring_size
      → len ≤ ring_size
      → copy_out ring_size buf index len ≡ window d ring_size buf index len
  unfolding copy_out
  copy_out-window ring_size buf index len small fits h p =
      let room = ring_size - index in
      let e : sub_size ring_size index ≡ room = omega arith in
      elim (lt-or-ge room len) [
        | inr q ↦
            let m : min len room ≡ len = omega arith in
            rw (e, m, le→ltb len len (omega arith))
              (slice-window ring_size buf index len fits (omega arith))
        | inl q ↦
            let m : min len room ≡ room = omega arith in
            let r : sub_size len room ≡ len - room = omega arith in
            let start : slot ring_size (index + room) ≡ 0 = ground arith in
            let parts : len ≡ room + (len - room) = omega arith in
            rw (e, m, r, lt→ltb room len q)
              (ap₂ ◌++◌ (slice-window ring_size buf index room fits (omega arith)) (
                  slice-window ring_size buf 0 (len - room) fits (omega arith)
                  ∙ ap (λ j. window d ring_size buf j (len - room)) (sym start))
                ∙ sym (window-add ring_size buf index room (len - room) h (omega arith))
                ∙ ap (λ n. window d ring_size buf index n) (sym parts))
      ]
