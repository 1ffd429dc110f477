-- ===== src/Ring.antt =====
-- The byte ring under the containers: indices that go round at `ring_size`, and copies in two chunks
-- where a block crosses the end of the storage.
pub mod Copy
pub mod Window
use micr_osal.Common.{
  ℕ, zero, suc, ◌+◌, ◌-◌, min, List, [], ◌∷◌, ◌++◌, ltb, if◌then◌else◌, get_or, set, take, drop,
  tabulate, add_size, sub_size,
}

-- The index `i` places after the start of the storage, for `i` below twice the ring's size.
abbrev pub slot : ℕ → ℕ → ℕ
slot ring_size i = if ltb i ring_size then i else i - ring_size

-- emu_mb_advance_index
abbrev pub advance_index : ℕ → ℕ → ℕ → ℕ
advance_index index len ring_size =
    let advanced = add_size index len in
    if ltb advanced ring_size then advanced else sub_size advanced ring_size

module _ {ℓ} {A : Type ℓ} where
  -- memcpy (dst + i, src, length src)
  unfoldable pub copy_to : List A → ℕ → List A → List A
  copy_to dst i [] = dst
  copy_to dst i (x ∷ xs) = copy_to (set dst i x) (suc i) xs

  -- The `n` items at `src + i`, which a memcpy reads.
  abbrev pub slice : List A → ℕ → ℕ → List A
  slice src i n = take n (drop i src)

  -- emu_mb_copy_in
  unfoldable pub copy_in : ℕ → List A → ℕ → List A → ℕ → List A
  unfolding copy_to
  copy_in ring_size buf index src len =
      let first = min len (sub_size ring_size index) in
      let buf₁ = copy_to buf index (slice src 0 first) in
      if ltb first len then copy_to buf₁ 0 (slice src first (sub_size len first)) else buf₁

  -- emu_mb_copy_out
  unfoldable pub copy_out : ℕ → List A → ℕ → ℕ → List A
  copy_out ring_size buf index len =
      let first = min len (sub_size ring_size index) in
      if ltb first len
      then slice buf index first ++ slice buf 0 (sub_size len first)
      else slice buf index first

-- The `n` items from index `t` on, going round at the end of the storage.
module _ {ℓ} {A : Type ℓ} (d : A) where
  abbrev pub window : ℕ → List A → ℕ → ℕ → List A
  window ring_size buf t n = tabulate n (λ k. get_or buf (slot ring_size (t + k)) d)
