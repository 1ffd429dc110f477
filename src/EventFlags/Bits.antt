-- ===== src/EventFlags/Bits.antt =====
-- The flag bits: clearing some never makes a wait match.
use micr_osal.Common.{[], ◌∷◌, Bool, true, false, ◌≡◌, refl, ◌⊎◌, inl, inr, arith}
use micr_osal.EventFlags.{Bits, bit_and, bit_clear, any_bit, same_bits, matches}

-- Where the first test holds, the second does.
abbrev Implies : Bool → Bool → Type 0
Implies a b = (a ≡ false) ⊎ (b ≡ true)

Implies-refl : (a : Bool) → Implies a a
Implies-refl true = inr refl
Implies-refl false = inl refl

any-clear :
    (bits mask want : Bits)
    → Implies (any_bit (bit_and (bit_clear bits mask) want)) (any_bit (bit_and bits want))
unfolding any_bit bit_and bit_clear
any-clear [] mask want = inl refl
any-clear (x ∷ xs) [] want = Implies-refl (any_bit (bit_and (x ∷ xs) want))
any-clear (x ∷ xs) (m ∷ ms) [] = inl refl
any-clear (x ∷ xs) (m ∷ ms) (w ∷ ws) = let ih = any-clear xs ms ws in ground arith

all-clear :
    (bits mask want : Bits)
    → Implies
        (same_bits (bit_and (bit_clear bits mask) want) want)
        (same_bits (bit_and bits want) want)
unfolding same_bits bit_and bit_clear
all-clear [] mask want = Implies-refl (same_bits [] want)
all-clear (x ∷ xs) [] want = Implies-refl (same_bits (bit_and (x ∷ xs) want) want)
all-clear (x ∷ xs) (m ∷ ms) [] = inr refl
all-clear (x ∷ xs) (m ∷ ms) (w ∷ ws) = let ih = all-clear xs ms ws in ground arith

pub matches-clear :
    (bits mask want : Bits) (all : Bool)
    → (matches (bit_clear bits mask) want all ≡ false) ⊎ (matches bits want all ≡ true)
unfolding matches
matches-clear bits mask want true = all-clear bits mask want
matches-clear bits mask want false = any-clear bits mask want
