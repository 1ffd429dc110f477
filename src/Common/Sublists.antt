-- ===== src/Common/Sublists.antt =====
-- Lists that keep some of the items of another, in order.
use mathlib.Core.List.{List, [], ◌∷◌, ◌++◌}

pub data Sublist {A : Type 0} : List A → List A → Type 0 where
  nothing : Sublist [] []
  keep : {xs ys : List A} (x : A) → Sublist xs ys → Sublist (x ∷ xs) (x ∷ ys)
  skip : {xs ys : List A} (y : A) → Sublist xs ys → Sublist xs (y ∷ ys)

module _ {A : Type 0} where
  pub Sublist-none : (ys : List A) → Sublist [] ys
  Sublist-none [] = nothing
  Sublist-none (y ∷ ys) = skip y (Sublist-none ys)

  -- Both lists take one more item.
  pub Sublist-snoc :
      (x : A) {xs ys : List A} → Sublist xs ys → Sublist (xs ++ (x ∷ [])) (ys ++ (x ∷ []))
  Sublist-snoc x nothing = keep x nothing
  Sublist-snoc x (keep y r) = keep y (Sublist-snoc x r)
  Sublist-snoc x (skip y r) = skip y (Sublist-snoc x r)

  pub Sublist-left : (xs back : List A) → Sublist xs (xs ++ back)
  Sublist-left [] back = Sublist-none back
  Sublist-left (x ∷ xs) back = keep x (Sublist-left xs back)

  pub Sublist-trans :
      {ys zs : List A} → Sublist ys zs → {xs : List A} → Sublist xs ys → Sublist xs zs
  Sublist-trans nothing p = p
  Sublist-trans (keep y q) (keep x p) = keep x (Sublist-trans q p)
  Sublist-trans (keep y q) (skip x p) = skip y (Sublist-trans q p)
  Sublist-trans (skip y q) p = skip y (Sublist-trans q p)
