-- ===== src/DelayableWork/Owner.antt =====
-- Who has the callback of a delayable work item in hand, in each state.
use micr_osal.Common.{ℕ, ◌+◌, ◌≡◌, ◌≢◌, refl, ◌⊎◌, List, [], ◌∷◌, Bool, arith}
use micr_osal.Error.{Result, ok}
use micr_osal.DelayableWork.{
  State, idle, armed, queued, running, stopping, Call, schedule, reschedule, cancel, Client, done,
  entered, exchanging, halting, beginning, queueing, submitting, noting, unqueueing, setting_period,
  storing_1, storing_2, storing_3, storing_4, arming, starting, Callback, quiet, loaded, read_1,
  read_2, read_3, read_4, tested, handing_over, noting_failure, unqueueing_failure, Runner, resting,
  took, calling, Work, fresh,
}
use micr_osal.DelayableWork.Steps.{
  client_step, timer_step, runner_step, Event, calls, client_goes, timer_goes, runner_goes, tick,
  begin_call, step, run, admit, exchange, halted,
}

-- How many entries each actor has in hand.
abbrev pub client_holds : Client → ℕ
client_holds submitting = 1
client_holds (noting _) = 1
client_holds (unqueueing _) = 1
client_holds _ = 0

abbrev pub callback_holds : Callback → ℕ
callback_holds handing_over = 1
callback_holds (noting_failure _) = 1
callback_holds (unqueueing_failure _) = 1
callback_holds _ = 0

abbrev pub runner_holds : Runner → ℕ
runner_holds resting = 0
runner_holds took = 1
runner_holds calling = 1

abbrev pub in_hand : State → ℕ
in_hand queued = 1
in_hand running = 1
in_hand _ = 0

-- The state a client relies on where it is.
abbrev pub ClientIn : Client → State → Type 0
ClientIn (halting c) v = v ≡ stopping
ClientIn (beginning d) v = v ≡ idle
ClientIn queueing v = v ≡ idle
ClientIn (setting_period d) v = v ≡ idle
ClientIn (storing_1 t d) v = v ≡ idle
ClientIn (storing_2 t d) v = v ≡ idle
ClientIn (storing_3 t d) v = v ≡ idle
ClientIn (storing_4 t d) v = v ≡ idle
ClientIn (arming t d) v = v ≡ idle
ClientIn _ v = v ≢ stopping

-- The words that the timer's callback acts on are armed.
abbrev pub CallbackIn : Callback → Type 0
CallbackIn (loaded w n) = w.state ≡ armed
CallbackIn (read_1 w n a) = w.state ≡ armed
CallbackIn (read_2 w n a b) = w.state ≡ armed
CallbackIn (read_3 w n a b c) = w.state ≡ armed
CallbackIn (read_4 w n a b c d) = w.state ≡ armed
CallbackIn (tested w n) = w.state ≡ armed
CallbackIn _ = Unit

abbrev pub RunnerIn : Runner → State → Type 0
RunnerIn calling v = v ≡ running
RunnerIn _ v = v ≢ running

pub record OwnedAt (n : ℕ) (p : Client) (q : Callback) (o : Runner) (v : State) : Type 0 where
  pub hands : n + client_holds p + callback_holds q + runner_holds o ≡ in_hand v
  pub client_in : ClientIn p v
  pub callback_in : CallbackIn q
  pub runner_in : RunnerIn o v

abbrev pub Owned : Work → Type 0
Owned s = OwnedAt s.items s.client s.callback s.runner s.word.state

-- A start of the timer that fails comes before any callback of this arming.
abbrev pub FailsFirst : Event → Client → State → Type 0
FailsFirst (client_goes r) starting v = (r ≡ ok) ⊎ (v ≡ armed)
FailsFirst _ _ _ = Unit

pub fresh-Owned : (valid : Bool) (now : ℕ) → Owned (fresh valid now)
fresh-Owned valid now = ground arith

begin_call-Owned :
    (c : Call) (p : Client) (s : Work)
    → Owned s
    → OwnedAt s.items p s.callback s.runner s.word.state
    → Owned (begin_call c p s)
unfolding begin_call
begin_call-Owned c (done r) s h g = ground arith
begin_call-Owned c _ s h g = h

timer_step-Owned :
    (r : Result) (q : Callback) (s : Work)
    → Owned s
    → OwnedAt s.items s.client q s.runner s.word.state
    → Owned (timer_step r q s)
unfolding timer_step
timer_step-Owned r quiet s h g = ground arith
timer_step-Owned r (loaded w n) s h g = ground arith
timer_step-Owned r (read_1 w n a) s h g = ground arith
timer_step-Owned r (read_2 w n a b) s h g = ground arith
timer_step-Owned r (read_3 w n a b c) s h g = ground arith
timer_step-Owned r (read_4 w n a b c d) s h g = ground arith
timer_step-Owned r (tested w n) s h g = ground arith
timer_step-Owned r handing_over s h g = ground arith
timer_step-Owned r (noting_failure e) s h g = ground arith
timer_step-Owned r (unqueueing_failure e) s h g = ground arith

runner_step-Owned :
    (o : Runner) (s : Work)
    → Owned s
    → OwnedAt s.items s.client s.callback o s.word.state
    → Owned (runner_step o s)
unfolding runner_step
runner_step-Owned resting s h g = ground arith
runner_step-Owned took s h g = ground arith
runner_step-Owned calling s h g = ground arith

admit-Owned :
    (c : Call) (v : State) (s : Work)
    → OwnedAt s.items (entered c) s.callback s.runner v
    → s.word.state ≡ v
    → Owned (admit c v s)
unfolding admit
admit-Owned (schedule d) idle s g e = ground arith
admit-Owned (schedule d) _ s g e = ground arith
admit-Owned (reschedule d) idle s g e = ground arith
admit-Owned (reschedule d) armed s g e = ground arith
admit-Owned (reschedule d) _ s g e = ground arith
admit-Owned cancel idle s g e = ground arith
admit-Owned cancel _ s g e = ground arith

exchange-Owned :
    (c : Call) (v : State) (s : Work)
    → OwnedAt s.items (exchanging c) s.callback s.runner v
    → s.word.state ≡ v
    → Owned (exchange c v s)
unfolding exchange
exchange-Owned c armed s g e = ground arith
exchange-Owned cancel idle s g e = ground arith
exchange-Owned c _ s g e = ground arith

halted-Owned :
    (c : Call) (r : Result) (s : Work)
    → OwnedAt s.items (halting c) s.callback s.runner s.word.state
    → Owned (halted c r s)
unfolding halted
halted-Owned (schedule d) ok s g = ground arith
halted-Owned (reschedule d) ok s g = ground arith
halted-Owned cancel ok s g = ground arith
halted-Owned c _ s g = ground arith

submitting-Owned :
    (r : Result) (s : Work)
    → OwnedAt s.items submitting s.callback s.runner s.word.state
    → Owned (client_step r submitting s)
unfolding client_step
submitting-Owned ok s g = ground arith
submitting-Owned _ s g = ground arith

client_step-Owned :
    (r : Result) (p : Client) (s : Work)
    → Owned s
    → OwnedAt s.items p s.callback s.runner s.word.state
    → FailsFirst (client_goes r) p s.word.state
    → Owned (client_step r p s)
unfolding client_step
client_step-Owned r (done e) s h g f = h
client_step-Owned r (entered c) s h g f = admit-Owned c s.word.state s g refl
client_step-Owned r (exchanging c) s h g f = exchange-Owned c s.word.state s g refl
client_step-Owned r (halting c) s h g f = halted-Owned c r s g
client_step-Owned r (beginning d) s h g f = ground arith
client_step-Owned r queueing s h g f = ground arith
client_step-Owned r submitting s h g f = submitting-Owned r s g
client_step-Owned r (noting e) s h g f = ground arith
client_step-Owned r (unqueueing e) s h g f = ground arith
client_step-Owned r (setting_period d) s h g f = ground arith
client_step-Owned r (storing_1 t d) s h g f = ground arith
client_step-Owned r (storing_2 t d) s h g f = ground arith
client_step-Owned r (storing_3 t d) s h g f = ground arith
client_step-Owned r (storing_4 t d) s h g f = ground arith
client_step-Owned r (arming t d) s h g f = ground arith
client_step-Owned r starting s h g f = ground arith

-- Every step keeps the accounts of who has the callback in hand.
pub step-Owned :
    (e : Event) (s : Work) → Owned s → FailsFirst e s.client s.word.state → Owned (step e s)
unfolding step
step-Owned (calls c) s h f = begin_call-Owned c s.client s h h
step-Owned (client_goes r) s h f = client_step-Owned r s.client s h h f
step-Owned (timer_goes r) s h f = timer_step-Owned r s.callback s h h
step-Owned runner_goes s h f = runner_step-Owned s.runner s h h
step-Owned tick s h f = ground arith

-- Events in which a start of the timer that fails comes before any callback of its arming.
abbrev pub Orderly : List Event → Work → Type 0
Orderly [] s = Unit
Orderly (e ∷ es) s = FailsFirst e s.client s.word.state × Orderly es (step e s)

pub run-Owned : (es : List Event) (s : Work) → Owned s → Orderly es s → Owned (run es s)
unfolding run
run-Owned [] s h o = h
run-Owned (e ∷ es) s h o = run-Owned es (step e s) (step-Owned e s h o.0) o.1
