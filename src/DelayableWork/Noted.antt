-- ===== src/DelayableWork/Noted.antt =====
-- An error of the queue that on_timer has noted in a delayable work item, along every run.
use micr_osal.Common.{◌≡◌, Bool, true, false}
use micr_osal.Error.{Result, is_ok}
use micr_osal.DelayableWork.{Callback, noting_failure, unqueueing_failure, Work}

-- The error that on_timer reports is a failure, and is stored once it has been noted.
abbrev pub NotedAt : Result → Bool → Callback → Type 0
NotedAt error failed (noting_failure e) = is_ok e ≡ false
NotedAt error failed (unqueueing_failure e) = (is_ok e ≡ false) × (error ≡ e) × (failed ≡ true)
NotedAt error failed _ = Unit

abbrev pub Noted : Work → Type 0
Noted s = NotedAt s.dispatch_error s.dispatch_failed s.callback
