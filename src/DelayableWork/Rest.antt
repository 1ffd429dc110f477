-- ===== src/DelayableWork/Rest.antt =====
-- A delayable work item that is idle when no client is in a call.
use micr_osal.Common.{ℕ, ◌≡◌, ap, ◌∙◌, List, [], ◌∷◌, Bool, true, false, arith}
use micr_osal.Error.{Result, ok}
use micr_osal.DelayableWork.{
  State, idle, cancel, Client, done, halting, starting, Callback, quiet, loaded, read_1, read_2,
  read_3, read_4, tested, handing_over, noting_failure, unqueueing_failure, Runner, resting, took,
  calling, Work,
}
use micr_osal.DelayableWork.Steps.{
  client_step, timer_step, runner_step, Event, calls, client_goes, timer_goes, runner_goes, tick,
  step, run, halted,
}
use micr_osal.DelayableWork.Owner.{OwnedAt, Owned, FailsFirst, step-Owned}

-- Events without a new call.
abbrev pub NoCall : Event → Type 0
NoCall (calls c) = ⊥
NoCall _ = Unit

abbrev pub NoCalls : List Event → Type 0
NoCalls [] = Unit
NoCalls (e ∷ es) = NoCall e × NoCalls es

abbrev pub is_done : Client → Bool
is_done (done r) = true
is_done _ = false

pub record Resting (s : Work) (p : Client) (n : ℕ) : Type 0 where
  pub rests : s.word.state ≡ idle
  pub client : s.client ≡ p
  pub ran : s.runs ≡ n

timer_step-Resting :
    (r : Result) (q : Callback) (s : Work) (p : Client) (n : ℕ)
    → OwnedAt s.items s.client q s.runner s.word.state
    → Resting s p n
    → Resting (timer_step r q s) p n
unfolding timer_step
timer_step-Resting r quiet s p n g h = ground arith
timer_step-Resting r (loaded w n) s p m g h = ground arith
timer_step-Resting r (read_1 w n a) s p m g h = ground arith
timer_step-Resting r (read_2 w n a b) s p m g h = ground arith
timer_step-Resting r (read_3 w n a b c) s p m g h = ground arith
timer_step-Resting r (read_4 w n a b c d) s p m g h = ground arith
timer_step-Resting r (tested w n) s p m g h = ground arith
timer_step-Resting r handing_over s p n g h = ground arith
timer_step-Resting r (noting_failure e) s p m g h = ground arith
timer_step-Resting r (unqueueing_failure e) s p m g h = ground arith

runner_step-Resting :
    (o : Runner) (s : Work) (p : Client) (n : ℕ)
    → OwnedAt s.items s.client s.callback o s.word.state
    → Resting s p n
    → Resting (runner_step o s) p n
unfolding runner_step
runner_step-Resting resting s p n g h = ground arith
runner_step-Resting took s p n g h = ground arith
runner_step-Resting calling s p n g h = ground arith

client_step-Resting :
    (r : Result) (c : Client) (s : Work) (p : Client) (n : ℕ)
    → is_done c ≡ true
    → Resting s p n
    → Resting (client_step r c s) p n
unfolding client_step
client_step-Resting r (done x) s p n e h = h
client_step-Resting r _ s p n e h = absurd (cc)

FailsFirst-done : (e : Event) (c : Client) (v : State) → is_done c ≡ true → FailsFirst e c v
FailsFirst-done (client_goes r) (done x) v e = tt
FailsFirst-done (calls c) _ v e = tt
FailsFirst-done (timer_goes r) _ v e = tt
FailsFirst-done runner_goes _ v e = tt
FailsFirst-done tick _ v e = tt
FailsFirst-done (client_goes r) _ v e = absurd (cc)

step-Resting :
    (e : Event) (s : Work) (p : Client) (n : ℕ)
    → is_done p ≡ true
    → NoCall e
    → Owned s
    → Resting s p n
    → Resting (step e s) p n
unfolding step
step-Resting (calls c) s p n d q o h = absurd q
step-Resting (client_goes r) s p n d q o h =
    client_step-Resting r s.client s p n (ap is_done h.client ∙ d) h
step-Resting (timer_goes r) s p n d q o h = timer_step-Resting r s.callback s p n o h
step-Resting runner_goes s p n d q o h = runner_step-Resting s.runner s p n o h
step-Resting tick s p n d q o h = ground arith

pub run-Resting :
    (es : List Event) (s : Work) (p : Client) (n : ℕ)
    → Owned s
    → Resting s p n
    → is_done p ≡ true
    → NoCalls es
    → (run es s).runs ≡ n
unfolding run
run-Resting [] s p n o h d q = h.ran
run-Resting (e ∷ es) s p n o h d q =
    let f = FailsFirst-done e s.client s.word.state (ap is_done h.client ∙ d) in
    run-Resting es (step e s) p n (step-Owned e s o f) (step-Resting e s p n d q.0 o h) d q.1

halting_step-Resting :
    (c : Client) (s : Work) → c ≡ halting cancel → Resting (client_step ok c s) (done ok) s.runs
unfolding client_step halted
halting_step-Resting (halting cancel) s e = ground arith
halting_step-Resting _ s e = absurd (cc)

FailsFirst-halting : (c : Client) (v : State) → c ≡ halting cancel → FailsFirst (client_goes ok) c v
FailsFirst-halting starting v e = absurd (cc)
FailsFirst-halting _ v e = tt

-- A cancel whose stop of the timer succeeds leaves the item at rest.
pub halted-Resting :
    (s : Work)
    → Owned s
    → s.client ≡ halting cancel
    → Owned (step (client_goes ok) s) × Resting (step (client_goes ok) s) (done ok) s.runs
unfolding step
halted-Resting s o e = (
  step-Owned (client_goes ok) s o (FailsFirst-halting s.client s.word.state e),
  halting_step-Resting s.client s e,
)
