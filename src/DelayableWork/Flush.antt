-- ===== src/DelayableWork/Flush.antt =====
-- delayable_work::flush, and the errors it reports.
use micr_osal.Common.{
  ◌≡◌, ◌≢◌, ◌⊎◌, List, [], ◌∷◌, ◌++◌, Option, none, some, Bool, true, false, ◌&&◌, ◌==◌,
  if◌then◌else◌, arith,
}
use micr_osal.Error.{Result, ok, timeout}
use micr_osal.Clock.{ℤ, pos, negsuc}
use micr_osal.DelayableWork.{idle, code, Work}

-- consume_dispatch_error
unfoldable pub consume_dispatch_error : Work → Result × Work
consume_dispatch_error s =
    if s.dispatch_failed
    then (s.dispatch_error, record s { dispatch_failed = false; dispatch_error = ok })
    else (ok, s)

abbrev pub is_finite : ℤ → Bool
is_finite (pos n) = true
is_finite (negsuc n) = false

-- flush of an item that is valid: what each poll finds, and whether the deadline has passed then
unfoldable pub flush : ℤ → List (Work × Bool) → Option (Result × Work)
unfolding consume_dispatch_error
flush limit [] = none
flush limit ((s, expired) ∷ polls) =
    let rest = flush limit polls in
    if code s.word.state == 0
    then some (consume_dispatch_error s)
    else if is_finite limit && expired
    then some (timeout, s)
    else rest

-- A flush with a timeout that is not negative returns at the latest at the first poll that finds the
-- deadline passed; with a negative one, at the first poll that finds the item idle.
pub flush_returns :
    (limit : ℤ) (before polls : List (Work × Bool)) (s : Work) (expired : Bool)
    → (is_finite limit && expired ≡ true) ⊎ (s.word.state ≡ idle)
    → flush limit (before ++ (s, expired) ∷ polls) ≢ none
unfolding flush
flush_returns limit [] polls s expired h = ground arith
flush_returns limit ((t, x) ∷ before) polls s expired h =
    let rest = flush_returns limit before polls s expired h in ground arith

abbrev pub consumed : Work → Work
consumed s = record s { dispatch_failed = false; dispatch_error = ok }
