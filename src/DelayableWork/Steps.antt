-- ===== src/DelayableWork/Steps.antt =====
-- The steps of a delayable work item: its clients' calls, on_timer and run_work. One step is one access of
-- state_ or of a half of a time; the two stores of a dispatch error are one step, and so is what follows a
-- stop of the timer, the store of the state and the reset of the error.
use micr_osal.Common.{◌+◌, ◌-◌, ◌%◌, ◌^◌, List, [], ◌∷◌, ltb, ◌==◌, if◌then◌else◌}
use micr_osal.Error.{Result, ok, would_block, already_exists, not_initialized, is_ok}
use micr_osal.Clock.{sub_u64}
use micr_osal.DelayableWork.{
  State, idle, armed, queued, running, stopping, code, next_generation, same_word, load_time,
  low_half, high_half, Call, schedule, reschedule, cancel, Client, done, entered, exchanging,
  halting, beginning, queueing, submitting, noting, unqueueing, setting_period, storing_1,
  storing_2, storing_3, storing_4, arming, starting, Callback, quiet, loaded, read_1, read_2,
  read_3, read_4, tested, handing_over, noting_failure, unqueueing_failure, Runner, resting, took,
  calling, Work, store_state, clear_dispatch_error, set_dispatch_error, at,
}

-- The tests of the state that each call begins with.
unfoldable pub admit : Call → State → Work → Work
admit (schedule d) idle s = at (beginning d) s
admit (schedule d) _ s = at (done already_exists) s
admit (reschedule d) idle s = at (beginning d) s
admit (reschedule d) armed s = at (exchanging (reschedule d)) s
admit (reschedule d) _ s = at (done would_block) s
admit cancel idle s = at (done ok) (clear_dispatch_error s)
admit cancel _ s = at (exchanging cancel) s

-- compare_exchange_state from armed to stopping, and what a call does when it fails
unfoldable pub exchange : Call → State → Work → Work
exchange c armed s = at (halting c) (store_state stopping s)
exchange cancel idle s = at (done ok) s
exchange c _ s = at (done would_block) s

-- The timer's stop has returned `r`.
unfoldable pub halted : Call → Result → Work → Work
halted c ok s =
    let s' = record (store_state idle s) { dropped = s.dropped + 1 } in
    (elim c [
      | schedule d ↦ at (beginning d) s'
      | reschedule d ↦ at (beginning d) s'
      | cancel ↦ at (done ok) (clear_dispatch_error s')
    ])
halted c r s = at (done r) (store_state armed s)

-- The next step of a client, with what the call it makes of the timer or of the queue returns:
-- schedule, reschedule, cancel, arm_locked and enqueue_locked.
unfoldable pub client_step : Result → Client → Work → Work
unfolding admit exchange halted
client_step r (done _) s = s
client_step r (entered c) s = admit c s.word.state s
client_step r (exchanging c) s = exchange c s.word.state s
client_step r (halting c) s = halted c r s
client_step r (beginning d) s =
    at (if d == 0 then queueing else setting_period d) (clear_dispatch_error s)
client_step r queueing s = at submitting (record (store_state queued s) { begun = s.begun + 1 })
client_step r submitting s =
    if is_ok r then at (done ok) (record s { items = s.items + 1 }) else at (noting r) s
client_step r (noting e) s = at (unqueueing e) (set_dispatch_error e s)
client_step r (unqueueing e) s =
    at (done e) (record (store_state idle s) { dropped = s.dropped + 1 })
client_step r (setting_period d) s = if is_ok r then at (storing_1 s.now d) s else at (done r) s
client_step r (storing_1 t d) s = at (storing_2 t d) (record s { start_low = low_half t })
client_step r (storing_2 t d) s = at (storing_3 t d) (record s { start_high = high_half t })
client_step r (storing_3 t d) s = at (storing_4 t d) (record s { delay_low = low_half d })
client_step r (storing_4 t d) s = at (arming t d) (record s { delay_high = high_half d })
client_step r (arming t d) s = at starting (record s {
  word = next_generation s.word;
  arms = s.arms + 1;
  due = t + d % 2 ^ 64;
  begun = s.begun + 1;
})
client_step r starting s =
    if is_ok r
    then at (done ok) s
    else at (done r) (record (store_state idle s) { dropped = s.dropped + 1 })

-- The next step of on_timer, with what the queue's submit returns.
unfoldable pub timer_step : Result → Callback → Work → Work
timer_step r quiet s =
    if code s.word.state == 1 then record s { callback = loaded s.word s.arms } else s
timer_step r (loaded w n) s = record s { callback = read_1 w n s.start_high }
timer_step r (read_1 w n a) s = record s { callback = read_2 w n a s.start_low }
timer_step r (read_2 w n a b) s = record s { callback = read_3 w n a b s.delay_high }
timer_step r (read_3 w n a b c) s = record s { callback = read_4 w n a b c s.delay_low }
timer_step r (read_4 w n a b c d) s =
    let early = ltb (sub_u64 s.now (load_time b a)) (load_time d c) in
    record s { callback = if early then quiet else tested w n }
timer_step r (tested w n) s =
    if same_word s.word w
    then record (store_state queued s) { callback = handing_over }
    else record s { callback = quiet }
timer_step r handing_over s =
    if is_ok r
    then record s { callback = quiet; items = s.items + 1 }
    else record s { callback = noting_failure r }
timer_step r (noting_failure e) s = record (set_dispatch_error e s) {
  callback = unqueueing_failure e;
}
timer_step r (unqueueing_failure e) s = record (store_state idle s) {
  callback = quiet;
  dropped = s.dropped + 1;
}

-- The next step of the work queue's thread: it takes an entry, and does run_work.
unfoldable pub runner_step : Runner → Work → Work
runner_step resting s = if s.items == 0 then s else record s { items = s.items - 1; runner = took }
runner_step took s =
    if code s.word.state == 2
    then record (store_state running s) { runner = calling; runs = s.runs + 1 }
    else record s { runner = resting }
runner_step calling s =
    if code s.word.state == 3
    then record (store_state idle s) { runner = resting }
    else record s { runner = resting }

-- A client that finds the mutex free makes a call, an actor makes its next step, or time passes.
pub data Event : Type 0 where
  calls : Call → Event
  client_goes timer_goes : Result → Event
  runner_goes tick : Event

-- A call of a client when no client has the mutex
unfoldable pub begin_call : Call → Client → Work → Work
begin_call c (done _) s = if s.valid then at (entered c) s else at (done not_initialized) s
begin_call c _ s = s

unfoldable pub step : Event → Work → Work
unfolding begin_call client_step timer_step runner_step
step (calls c) s = begin_call c s.client s
step (client_goes r) s = client_step r s.client s
step (timer_goes r) s = timer_step r s.callback s
step runner_goes s = runner_step s.runner s
step tick s = if ltb (s.now + 1) (2 ^ 64) then record s { now = s.now + 1 } else s

unfoldable pub run : List Event → Work → Work
unfolding step
run [] s = s
run (e ∷ es) s = run es (step e s)
