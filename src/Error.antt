-- ===== src/Error.antt =====
-- include/osal/error.hpp: the codes that calls return, and the chaining of results.
use micr_osal.Common.{◌≡◌, ◌≢◌, refl, ◌⊎◌, inl, inr, Bool, true, false}

-- error_code; a `result` is a struct of one such code.
pub data ErrorCode : Type 0 where
  ok timeout would_block invalid_argument not_supported out_of_resources : ErrorCode
  permission_denied already_exists not_initialized overflow underflow : ErrorCode
  deadlock_detected not_owner isr_invalid barrier_serial owner_died : ErrorCode
  not_recoverable cancelled unknown : ErrorCode

abbrev pub Result : Type 0
Result = ErrorCode

-- result::ok
abbrev pub is_ok : Result → Bool
is_ok ok = true
is_ok _ = false

-- The callable runs only on success.
unfoldable pub and_then : Result → (Unit {0} → Result) → Result
and_then ok f = f tt
and_then e f = e

-- The callable runs only on failure, and is given the code.
unfoldable pub or_else : Result → (ErrorCode → Result) → Result
or_else ok f = ok
or_else e f = f e

-- Chains of `and_then` associate, and `ok()` is their unit on both sides.
pub and_then_laws :
    (m : Result) (f g : Unit {0} → Result)
    → (and_then (and_then m f) g ≡ and_then m (λ x. and_then (f x) g))
      × (and_then ok f ≡ f tt)
      × (and_then m (λ x. ok) ≡ m)
unfolding and_then
and_then_laws ok f g = (refl, refl, refl)
and_then_laws _ f g = (refl, refl, refl)

pub ok_or_not : (r : Result) → (r ≡ ok) ⊎ (r ≢ ok)
ok_or_not ok = inl refl
ok_or_not _ = inr (λ e. cc)
