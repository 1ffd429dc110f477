-- ===== src/DelayableWork/Due.antt =====
-- The times that the timer's callback of a delayable work item reads, and when it hands over.
use micr_osal.Common.{
  ℕ, ◌+◌, ◌%◌, ◌^◌, ◌≤◌, ◌<◌, ◌≡◌, refl, List, [], ◌∷◌, Bool, true, false, ltb, arith,
}
use micr_osal.Error.{Result, ok}
use micr_osal.Clock.{sub_u64}
use micr_osal.DelayableWork.{
  State, idle, armed, queued, running, stopping, generations, load_time, low_half, high_half, Call,
  schedule, reschedule, cancel, Client, done, entered, exchanging, halting, beginning, queueing,
  submitting, noting, unqueueing, setting_period, storing_1, storing_2, storing_3, storing_4,
  arming, starting, Callback, quiet, loaded, read_1, read_2, read_3, read_4, tested, handing_over,
  noting_failure, unqueueing_failure, Runner, resting, took, calling, Work,
}
use micr_osal.DelayableWork.Times.{load_time-halves}
use micr_osal.DelayableWork.Steps.{
  client_step, timer_step, runner_step, Event, calls, client_goes, timer_goes, runner_goes, tick,
  begin_call, step, run, admit, exchange, halted,
}
use micr_osal.DelayableWork.Owner.{ClientIn, Owned, Orderly, step-Owned}

-- The states in which the times are those of the last arming.
abbrev pub live : State → Bool
live idle = false
live armed = true
live queued = false
live running = false
live stopping = true

-- The times that are stored, as they are read.
abbrev pub start_of : Work → ℕ
start_of s = load_time s.start_low s.start_high

abbrev pub delay_of : Work → ℕ
delay_of s = load_time s.delay_low s.delay_high

-- What the client has stored so far.
abbrev pub ClientTimes : Work → Client → Type 0
ClientTimes s (storing_1 t d) = t ≤ s.now
ClientTimes s (storing_2 t d) = (t ≤ s.now) × (s.start_low ≡ low_half t)
ClientTimes s (storing_3 t d) =
    (t ≤ s.now) × (s.start_low ≡ low_half t) × (s.start_high ≡ high_half t)
ClientTimes s (storing_4 t d) =
    (t ≤ s.now)
    × (s.start_low ≡ low_half t)
    × (s.start_high ≡ high_half t)
    × (s.delay_low ≡ low_half d)
ClientTimes s (arming t d) =
    (t ≤ s.now)
    × (s.start_low ≡ low_half t)
    × (s.start_high ≡ high_half t)
    × (s.delay_low ≡ low_half d)
    × (s.delay_high ≡ high_half d)
ClientTimes s _ = Unit

-- A half that was read at the last arming is the one that is stored.
abbrev pub Read : Work → ℕ → ℕ → ℕ → Type 0
Read s n x y = n ≡ s.arms → live s.word.state ≡ true → x ≡ y

-- What the timer's callback has read so far.
abbrev pub CallbackTimes : Work → Callback → Type 0
CallbackTimes s (read_1 w n a) = Read s n a s.start_high
CallbackTimes s (read_2 w n a b) = Read s n a s.start_high × Read s n b s.start_low
CallbackTimes s (read_3 w n a b c) =
    Read s n a s.start_high × Read s n b s.start_low × Read s n c s.delay_high
CallbackTimes s (read_4 w n a b c d) =
    Read s n a s.start_high
    × Read s n b s.start_low
    × Read s n c s.delay_high
    × Read s n d s.delay_low
CallbackTimes s (tested w n) = n ≡ s.arms → live s.word.state ≡ true → s.due ≤ s.now
CallbackTimes s _ = Unit

-- The word that the callback has loaded is that of an arming so far.
abbrev pub CallbackWord : ℕ → Callback → Type 0
CallbackWord m (loaded w n) = (n ≤ m) × (w.generation ≡ n % generations)
CallbackWord m (read_1 w n a) = (n ≤ m) × (w.generation ≡ n % generations)
CallbackWord m (read_2 w n a b) = (n ≤ m) × (w.generation ≡ n % generations)
CallbackWord m (read_3 w n a b c) = (n ≤ m) × (w.generation ≡ n % generations)
CallbackWord m (read_4 w n a b c d) = (n ≤ m) × (w.generation ≡ n % generations)
CallbackWord m (tested w n) = (n ≤ m) × (w.generation ≡ n % generations)
CallbackWord m _ = Unit

pub record TimedAt (s : Work) (p : Client) (q : Callback) : Type 0 where
  pub generation : s.word.generation ≡ s.arms % generations
  pub clock : s.now < 2 ^ 64
  pub started : live s.word.state ≡ true → start_of s ≤ s.now
  pub ends : live s.word.state ≡ true → start_of s + delay_of s ≡ s.due
  pub client : ClientTimes s p
  pub loads : CallbackWord s.arms q
  pub reads : CallbackTimes s q

abbrev pub Timed : Work → Type 0
Timed s = TimedAt s s.client s.callback

-- The test that on_timer makes of the times.
late_enough :
    (now start delay : ℕ)
    → start ≤ now
    → now < 2 ^ 64
    → ltb (sub_u64 now start) delay ≡ false
    → start + delay ≤ now
late_enough now start delay b c e = ground arith

begin_call-Timed :
    (c : Call) (p : Client) (s : Work) → Timed s → TimedAt s p s.callback → Timed (begin_call c p s)
unfolding begin_call
begin_call-Timed c (done r) s h g = ground arith
begin_call-Timed c _ s h g = h

timer_step-Timed :
    (r : Result) (q : Callback) (s : Work)
    → Timed s
    → TimedAt s s.client q
    → Timed (timer_step r q s)
unfolding timer_step
timer_step-Timed r quiet s h g = ground arith
timer_step-Timed r (loaded w n) s h g = ground arith
timer_step-Timed r (read_1 w n a) s h g = ground arith
timer_step-Timed r (read_2 w n a b) s h g = ground arith
timer_step-Timed r (read_3 w n a b c) s h g = ground arith
timer_step-Timed r (read_4 w n a b c d) s h g = ground arith
timer_step-Timed r (tested w n) s h g = ground arith
timer_step-Timed r handing_over s h g = ground arith
timer_step-Timed r (noting_failure e) s h g = ground arith
timer_step-Timed r (unqueueing_failure e) s h g = ground arith

runner_step-Timed : (o : Runner) (s : Work) → Timed s → Timed (runner_step o s)
unfolding runner_step
runner_step-Timed resting s h = ground arith
runner_step-Timed took s h = ground arith
runner_step-Timed calling s h = ground arith

admit-Timed :
    (c : Call) (v : State) (s : Work) → TimedAt s (entered c) s.callback → Timed (admit c v s)
unfolding admit
admit-Timed (schedule d) idle s g = ground arith
admit-Timed (schedule d) _ s g = ground arith
admit-Timed (reschedule d) idle s g = ground arith
admit-Timed (reschedule d) armed s g = ground arith
admit-Timed (reschedule d) _ s g = ground arith
admit-Timed cancel idle s g = ground arith
admit-Timed cancel _ s g = ground arith

exchange-Timed :
    (c : Call) (v : State) (s : Work)
    → TimedAt s (exchanging c) s.callback
    → s.word.state ≡ v
    → Timed (exchange c v s)
unfolding exchange
exchange-Timed c armed s g e = ground arith
exchange-Timed cancel idle s g e = ground arith
exchange-Timed c _ s g e = ground arith

halted-Timed :
    (c : Call) (r : Result) (s : Work)
    → TimedAt s (halting c) s.callback
    → s.word.state ≡ stopping
    → Timed (halted c r s)
unfolding halted
halted-Timed (schedule d) ok s g e = ground arith
halted-Timed (reschedule d) ok s g e = ground arith
halted-Timed cancel ok s g e = ground arith
halted-Timed c _ s g e = ground arith

client_step-Timed :
    (r : Result) (p : Client) (s : Work)
    → Timed s
    → TimedAt s p s.callback
    → ClientIn p s.word.state
    → Timed (client_step r p s)
unfolding client_step
client_step-Timed r (done e) s h g i = h
client_step-Timed r (entered c) s h g i = admit-Timed c s.word.state s g
client_step-Timed r (exchanging c) s h g i = exchange-Timed c s.word.state s g refl
client_step-Timed r (halting c) s h g i = halted-Timed c r s g i
client_step-Timed r (arming t d) s h g i = ground (arith, load_time-halves t, load_time-halves d)
client_step-Timed r (beginning d) s h g i = ground arith
client_step-Timed r queueing s h g i = ground arith
client_step-Timed r submitting s h g i = ground arith
client_step-Timed r (noting e) s h g i = ground arith
client_step-Timed r (unqueueing e) s h g i = ground arith
client_step-Timed r (setting_period d) s h g i = ground arith
client_step-Timed r (storing_1 t d) s h g i = ground arith
client_step-Timed r (storing_2 t d) s h g i = ground arith
client_step-Timed r (storing_3 t d) s h g i = ground arith
client_step-Timed r (storing_4 t d) s h g i = ground arith
client_step-Timed r starting s h g i = ground arith

-- Every step keeps the times.
step-Timed : (e : Event) (s : Work) → Owned s → Timed s → Timed (step e s)
unfolding step
step-Timed (calls c) s o h = begin_call-Timed c s.client s h h
step-Timed (client_goes r) s o h = client_step-Timed r s.client s h h o.client_in
step-Timed (timer_goes r) s o h = timer_step-Timed r s.callback s h h
step-Timed runner_goes s o h = runner_step-Timed s.runner s h
step-Timed tick s o h = ground arith

pub run-Timed : (es : List Event) (s : Work) → Owned s → Orderly es s → Timed s → Timed (run es s)
unfolding run
run-Timed [] s o i h = h
run-Timed (e ∷ es) s o i h = run-Timed es (step e s) (step-Owned e s o i.0) i.1 (step-Timed e s o h)

-- Armings of one generation, of which fewer than all generations have passed since, are the same.
pub same_arming :
    (n m : ℕ) → n ≤ m → m < n + generations → m % generations ≡ n % generations → n ≡ m
same_arming n m b c e = omega arith
