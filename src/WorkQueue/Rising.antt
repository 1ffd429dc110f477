-- ===== src/WorkQueue/Rising.antt =====
-- Lists of items whose sequences rise, and bounds on them.
use micr_osal.Common.{ℕ, ◌≤◌, ◌<◌, List, [], ◌∷◌, ◌++◌, arith}
use micr_osal.WorkQueue.{Entry}

-- Sequences that rise from above `lo` up to at most `hi`.
abbrev pub Rising : ℕ → List Entry → ℕ → Type 0
Rising lo [] hi = lo ≤ hi
Rising lo (x ∷ xs) hi = (lo < x.sequence) × Rising x.sequence xs hi

-- A bound on all sequences, from above and from below.
abbrev pub UpTo : ℕ → List Entry → Type 0
UpTo n [] = Unit
UpTo n (x ∷ xs) = (x.sequence ≤ n) × UpTo n xs

abbrev pub Above : ℕ → List Entry → Type 0
Above n [] = Unit
Above n (x ∷ xs) = (n < x.sequence) × Above n xs

pub Rising-snoc :
    (lo : ℕ) (xs : List Entry) (hi : ℕ) (e : Entry) (top : ℕ)
    → Rising lo xs hi
    → hi < e.sequence
    → e.sequence ≤ top
    → Rising lo (xs ++ (e ∷ [])) top
Rising-snoc lo [] hi e top r a b = (omega arith, b)
Rising-snoc lo (x ∷ xs) hi e top r a b = (r.0, Rising-snoc x.sequence xs hi e top r.1 a b)

pub Rising-le : (lo : ℕ) (xs : List Entry) (hi : ℕ) → Rising lo xs hi → lo ≤ hi
Rising-le lo [] hi r = r
Rising-le lo (x ∷ xs) hi r = omega (arith, r.0, Rising-le x.sequence xs hi r.1)

pub Rising-front :
    (lo : ℕ) (xs ys : List Entry) (hi : ℕ) → Rising lo (xs ++ ys) hi → Rising lo xs hi
Rising-front lo [] ys hi r = Rising-le lo ys hi r
Rising-front lo (x ∷ xs) ys hi r = (r.0, Rising-front x.sequence xs ys hi r.1)

-- The last one bounds them all.
pub Rising-UpTo :
    (lo : ℕ) (xs : List Entry) (e : Entry) (hi : ℕ)
    → Rising lo (xs ++ (e ∷ [])) hi
    → UpTo e.sequence (xs ++ (e ∷ []))
Rising-UpTo lo [] e hi r = (omega arith, tt)
Rising-UpTo lo (x ∷ xs) e hi r =
    let ih = Rising-UpTo x.sequence xs e hi r.1 in
    (omega (arith, last-le x.sequence xs e hi r.1), ih)
  where
    last-le :
        (lo : ℕ) (xs : List Entry) (e : Entry) (hi : ℕ)
        → Rising lo (xs ++ (e ∷ [])) hi
        → lo ≤ e.sequence
    last-le lo [] e hi r = omega (arith, r.0)
    last-le lo (x ∷ xs) e hi r = omega (arith, r.0, last-le x.sequence xs e hi r.1)

pub Rising-Above : (n lo : ℕ) (xs : List Entry) (hi : ℕ) → n ≤ lo → Rising lo xs hi → Above n xs
Rising-Above n lo [] hi h r = tt
Rising-Above n lo (x ∷ xs) hi h r =
    (omega (arith, r.0), Rising-Above n x.sequence xs hi (omega (arith, r.0)) r.1)
