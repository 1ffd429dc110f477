-- ===== src/StopToken.antt =====
-- include/osal/stop_token.hpp: a source of stop requests with the callbacks that are registered at it. The
-- threads interleave where the source's mutex is free; a callback runs while it is.
pub mod Invariant
pub mod Safety
mod Tests
use micr_osal.Common.{
  ℕ, ◌+◌, ◌-◌, List, [], ◌∷◌, Option, none, some, Bool, true, false, ◌==◌, if◌then◌else◌,
}
use micr_osal.Error.{Result, ok, timeout, overflow}

-- A table with one entry changed.
abbrev pub updated {ℓ} : {A : Type ℓ} → (ℕ → A) → ℕ → A → ℕ → A
updated f k x j = if j == k then x else f j

-- Where a callback is: not constructed, registered at its source or called by its constructor, in a close
-- that waits, or without a source, since it was closed or refused.
pub data Life : Type 0 where
  unborn registered closing detached : Life

-- Where the thread is whose request was the first: it has not come, it is outside the lock and about to
-- call a callback, it has called it, or its loop has ended.
pub data Requester : Type 0 where
  absent ended : Requester
  calling called : ℕ → Requester

-- stop_source, its callbacks in the order of the list, and of each callback executing_, where it is, and
-- how often it has run
pub record Source : Type 0 where
  pub stopped : Bool
  pub linked : List ℕ
  pub count : ℕ
  pub executing : ℕ → Bool
  pub life : ℕ → Life
  pub ran : ℕ → ℕ
  pub requester : Requester

abbrev pub fresh : Source
fresh = record {
  stopped = false;
  linked = [];
  count = 0;
  executing = λ c. false;
  life = λ c. unborn;
  ran = λ c. 0;
  requester = absent;
}

abbrev pub lives : ℕ → Life → Source → Source
lives c l s = record s { life = updated s.life c l }

abbrev pub runs_callback : ℕ → Source → Source
runs_callback c s = record s { ran = updated s.ran c (s.ran c + 1) }

-- The constructor of stop_callback, and its status; `max` is OSAL_STOP_SOURCE_MAX_CALLBACKS.
unfoldable pub construct : ℕ → ℕ → Source → Result × Source
construct max c s =
    if s.stopped
    then (ok, lives c registered (runs_callback c s))
    else if s.count == max
    then (overflow, lives c detached s)
    else (ok, lives c registered (record s { linked = c ∷ s.linked; count = s.count + 1 }))

-- The head of the loop of request_stop, up to where it leaves the lock.
unfoldable pub take_next : List ℕ → Source → Source
take_next [] s = record s { linked = []; requester = ended }
take_next (c ∷ cs) s = record s {
  linked = cs;
  count = s.count - 1;
  executing = updated s.executing c true;
  requester = calling c;
}

-- request_stop, up to the first callback: whether it was the first request
unfoldable pub request_stop : Source → Bool × Source
unfolding take_next
request_stop s =
    let next = take_next s.linked (record s { stopped = true }) in
    if s.stopped then (false, s) else (true, next)

-- The requester calls the callback, and locks again.
unfoldable pub requester_step : Requester → Source → Source
unfolding take_next
requester_step (calling c) s = record (runs_callback c s) { requester = called c }
requester_step (called c) s =
    take_next s.linked (record s { executing = updated s.executing c false })
requester_step _ s = s

-- The loop of close that unlinks the callback.
unfoldable pub is_linked : ℕ → List ℕ → Bool
is_linked c [] = false
is_linked c (d ∷ ds) = if d == c then true else is_linked c ds

unfoldable pub unlink : ℕ → List ℕ → List ℕ
unlink c [] = []
unlink c (d ∷ ds) = if d == c then ds else d ∷ unlink c ds

unfoldable pub unlinked : ℕ → Source → Source
unfolding is_linked unlink
unlinked c s = record s {
  linked = unlink c s.linked;
  count = if is_linked c s.linked then s.count - 1 else s.count;
}

-- The test of close whether the callback is executing: the result, or none where it waits.
unfoldable pub await_done : Bool → ℕ → Source → Option Result × Source
await_done expired c s =
    if s.executing c
    then (if expired then (some timeout, lives c registered s) else (none, lives c closing s))
    else (some ok, lives c detached s)

-- close, up to where it waits or returns
unfoldable pub close : Bool → ℕ → Source → Option Result × Source
unfolding unlinked await_done
close expired c s = await_done expired c (unlinked c s)

-- Callbacks are constructed, a stop is requested, the requester goes on, a callback is closed, and the wait
-- of its close has ended, by then with its deadline passed or not.
pub data Event : Type 0 where
  constructs : ℕ → Event
  requests requester_goes : Event
  closes rechecks : Bool → ℕ → Event

abbrev pub is_unborn : Life → Bool
is_unborn unborn = true
is_unborn _ = false

abbrev pub has_source : Life → Bool
has_source registered = true
has_source _ = false

abbrev pub is_closing : Life → Bool
is_closing closing = true
is_closing _ = false

-- A callback is constructed once, closed while it has a source, by one thread at a time.
unfoldable pub step : ℕ → Event → Source → Source
unfolding construct request_stop requester_step close await_done
step max (constructs c) s = if is_unborn (s.life c) then (construct max c s).1 else s
step max requests s = (request_stop s).1
step max requester_goes s = requester_step s.requester s
step max (closes expired c) s = if has_source (s.life c) then (close expired c s).1 else s
step max (rechecks expired c) s = if is_closing (s.life c) then (await_done expired c s).1 else s

unfoldable pub run : ℕ → List Event → Source → Source
unfolding step
run max [] s = s
run max (e ∷ es) s = run max es (step max e s)
