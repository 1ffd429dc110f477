-- ===== src/DelayableWork/Once.antt =====
-- What becomes of each delay that a client begins.
use micr_osal.Common.{ℕ, ◌+◌, ◌<◌, ◌≡◌, refl, List, [], ◌∷◌, arith}
use micr_osal.Error.{Result, ok}
use micr_osal.DelayableWork.{
  State, idle, armed, queued, running, stopping, Call, schedule, reschedule, cancel, Client, done,
  entered, exchanging, halting, beginning, queueing, submitting, noting, unqueueing, setting_period,
  storing_1, storing_2, storing_3, storing_4, arming, starting, Callback, quiet, loaded, read_1,
  read_2, read_3, read_4, tested, handing_over, noting_failure, unqueueing_failure, Runner, resting,
  took, calling, Work,
}
use micr_osal.DelayableWork.Steps.{
  client_step, timer_step, runner_step, Event, calls, client_goes, timer_goes, runner_goes, tick,
  begin_call, step, run, admit, exchange, halted,
}
use micr_osal.DelayableWork.Owner.{
  client_holds, callback_holds, OwnedAt, Owned, FailsFirst, Orderly, step-Owned,
}

-- Whether a delay that was begun is neither run nor dropped yet.
abbrev pub waiting : State → ℕ
waiting idle = 0
waiting armed = 1
waiting queued = 1
waiting running = 0
waiting stopping = 1

abbrev pub Counted : Work → Type 0
Counted s = s.begun ≡ s.runs + s.dropped + waiting s.word.state

begin_call-Counted : (c : Call) (p : Client) (s : Work) → Counted s → Counted (begin_call c p s)
unfolding begin_call
begin_call-Counted c (done r) s k = ground arith
begin_call-Counted c _ s k = k

-- An entry that has not reached the queue's thread is counted as one that waits.
pub holds_queued :
    (n : ℕ) (p : Client) (q : Callback) (o : Runner) (v : State)
    → OwnedAt n p q o v
    → 0 < client_holds p + callback_holds q
    → v ≡ queued
holds_queued n p q o idle g h = absurd (omega (arith, g.hands, h))
holds_queued n p q o armed g h = absurd (omega (arith, g.hands, h))
holds_queued n p q o queued g h = refl
holds_queued n p q resting running g h = absurd (g.runner_in refl)
holds_queued n p q took running g h = absurd (g.runner_in refl)
holds_queued n p q calling running g h = absurd (omega (arith, g.hands, h))
holds_queued n p q o stopping g h = absurd (omega (arith, g.hands, h))

timer_step-Counted :
    (r : Result) (q : Callback) (s : Work)
    → OwnedAt s.items s.client q s.runner s.word.state
    → Counted s
    → Counted (timer_step r q s)
unfolding timer_step
timer_step-Counted r quiet s g k = ground arith
timer_step-Counted r (loaded w n) s g k = ground arith
timer_step-Counted r (read_1 w n a) s g k = ground arith
timer_step-Counted r (read_2 w n a b) s g k = ground arith
timer_step-Counted r (read_3 w n a b c) s g k = ground arith
timer_step-Counted r (read_4 w n a b c d) s g k = ground arith
timer_step-Counted r (tested w n) s g k = ground arith
timer_step-Counted r handing_over s g k = ground arith
timer_step-Counted r (noting_failure e) s g k = ground arith
timer_step-Counted r (unqueueing_failure e) s g k =
    let q =
      holds_queued s.items s.client (unqueueing_failure e) s.runner s.word.state g (omega arith) in
    ground arith

runner_step-Counted :
    (o : Runner) (s : Work)
    → OwnedAt s.items s.client s.callback o s.word.state
    → Counted s
    → Counted (runner_step o s)
unfolding runner_step
runner_step-Counted resting s g k = ground arith
runner_step-Counted took s g k = ground arith
runner_step-Counted calling s g k = ground arith

admit-Counted : (c : Call) (v : State) (s : Work) → Counted s → Counted (admit c v s)
unfolding admit
admit-Counted (schedule d) idle s k = ground arith
admit-Counted (schedule d) _ s k = ground arith
admit-Counted (reschedule d) idle s k = ground arith
admit-Counted (reschedule d) armed s k = ground arith
admit-Counted (reschedule d) _ s k = ground arith
admit-Counted cancel idle s k = ground arith
admit-Counted cancel _ s k = ground arith

exchange-Counted :
    (c : Call) (v : State) (s : Work) → s.word.state ≡ v → Counted s → Counted (exchange c v s)
unfolding exchange
exchange-Counted c armed s e k = ground arith
exchange-Counted cancel idle s e k = ground arith
exchange-Counted c _ s e k = ground arith

halted-Counted :
    (c : Call) (r : Result) (s : Work)
    → s.word.state ≡ stopping
    → Counted s
    → Counted (halted c r s)
unfolding halted
halted-Counted (schedule d) ok s e k = ground arith
halted-Counted (reschedule d) ok s e k = ground arith
halted-Counted cancel ok s e k = ground arith
halted-Counted c _ s e k = ground arith

client_step-Counted :
    (r : Result) (p : Client) (s : Work)
    → OwnedAt s.items p s.callback s.runner s.word.state
    → FailsFirst (client_goes r) p s.word.state
    → Counted s
    → Counted (client_step r p s)
unfolding client_step
client_step-Counted r (done e) s g f k = k
client_step-Counted r (entered c) s g f k = admit-Counted c s.word.state s k
client_step-Counted r (exchanging c) s g f k = exchange-Counted c s.word.state s refl k
client_step-Counted r (halting c) s g f k = halted-Counted c r s g.client_in k
client_step-Counted r (unqueueing e) s g f k =
    let q = holds_queued s.items (unqueueing e) s.callback s.runner s.word.state g (omega arith) in
    ground arith
client_step-Counted r (beginning d) s g f k = ground arith
client_step-Counted r queueing s g f k = ground arith
client_step-Counted r submitting s g f k = ground arith
client_step-Counted r (noting e) s g f k = ground arith
client_step-Counted r (setting_period d) s g f k = ground arith
client_step-Counted r (storing_1 t d) s g f k = ground arith
client_step-Counted r (storing_2 t d) s g f k = ground arith
client_step-Counted r (storing_3 t d) s g f k = ground arith
client_step-Counted r (storing_4 t d) s g f k = ground arith
client_step-Counted r (arming t d) s g f k = ground arith
client_step-Counted r starting s g f k = ground arith

step-Counted :
    (e : Event) (s : Work)
    → Owned s
    → FailsFirst e s.client s.word.state
    → Counted s
    → Counted (step e s)
unfolding step
step-Counted (calls c) s h f k = begin_call-Counted c s.client s k
step-Counted (client_goes r) s h f k = client_step-Counted r s.client s h f k
step-Counted (timer_goes r) s h f k = timer_step-Counted r s.callback s h k
step-Counted runner_goes s h f k = runner_step-Counted s.runner s h k
step-Counted tick s h f k = ground arith

pub run-Counted :
    (es : List Event) (s : Work) → Owned s → Orderly es s → Counted s → Counted (run es s)
unfolding run
run-Counted [] s h o k = k
run-Counted (e ∷ es) s h o k =
    run-Counted es (step e s) (step-Owned e s h o.0) o.1 (step-Counted e s h o.0 k)
