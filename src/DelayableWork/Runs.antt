-- ===== src/DelayableWork/Runs.antt =====
-- What clients may rely on in every run of a delayable work item.
use micr_osal.Common.{ℕ, ◌+◌, ◌^◌, ◌≤◌, ◌<◌, ◌≡◌, refl, sym, ap, ◌∙◌, List, Bool, arith, subst}
use micr_osal.Error.{ok}
use micr_osal.DelayableWork.{
  generations, Word, cancel, done, halting, tested, Runner, resting, took, calling, Work, fresh,
}
use micr_osal.DelayableWork.Steps.{runner_step, Event, client_goes, runner_goes, step, run}
use micr_osal.DelayableWork.Owner.{OwnedAt, Owned, Orderly, run-Owned, fresh-Owned}
use micr_osal.DelayableWork.Once.{waiting, run-Counted}
use micr_osal.DelayableWork.Rest.{NoCalls, run-Resting, halted-Resting}
use micr_osal.DelayableWork.Due.{live, TimedAt, Timed, run-Timed, same_arming}

-- A run from a new item.
abbrev pub after : List Event → Bool → ℕ → Work
after es valid now = run es (fresh valid now)

abbrev pub OrderlyFrom : List Event → Bool → ℕ → Type 0
OrderlyFrom es valid now = Orderly es (fresh valid now)

pub after-Owned :
    (es : List Event) (valid : Bool) (now : ℕ)
    → OrderlyFrom es valid now
    → Owned (after es valid now)
after-Owned es valid now o = run-Owned es (fresh valid now) (fresh-Owned valid now) o

fresh-Timed : (valid : Bool) (now : ℕ) → now < 2 ^ 64 → Timed (fresh valid now)
fresh-Timed valid now b = ground arith

-- In a run in which a start of the timer that fails comes before any callback of its arming: when
-- on_timer has passed its test of the times and its compare-exchange finds the word that it loaded, and
-- fewer armings than there are generations came in between, the delay of the last arming has passed.
pub hand_over_due :
    (es : List Event) (valid : Bool) (now : ℕ) (w : Word) (n : ℕ)
    → now < 2 ^ 64
    → OrderlyFrom es valid now
    → (after es valid now).callback ≡ tested w n
    → (after es valid now).word ≡ w
    → (after es valid now).arms < n + generations
    → (after es valid now).due ≤ (after es valid now).now
hand_over_due es valid now w n b o e f m =
    let s = after es valid now in
    let t : Timed s =
      run-Timed es (fresh valid now) (fresh-Owned valid now) o (fresh-Timed valid now b) in
    let h : OwnedAt s.items s.client (tested w n) s.runner s.word.state =
      subst (λ q. OwnedAt s.items s.client q s.runner s.word.state) e
        (after-Owned es valid now o) in
    let t' : TimedAt s s.client (tested w n) = subst (λ q. TimedAt s s.client q) e t in
    t'.reads
      (same_arming n s.arms t'.loads.0 m
        (sym t.generation ∙ (ap (λ x. x.generation) f ∙ t'.loads.1)))
      (ap (λ x. live x.state) f ∙ ap live h.callback_in)

-- In such a run, every delay that was begun has run the callback once, was dropped, or still waits: so
-- the callback does not run more often than delays were begun.
pub begun-runs :
    (es : List Event) (valid : Bool) (now : ℕ)
    → OrderlyFrom es valid now
    → (after es valid now).begun
      ≡ (after es valid now).runs
        + (after es valid now).dropped
        + waiting (after es valid now).word.state
begun-runs es valid now o = run-Counted es (fresh valid now) (fresh-Owned valid now) o refl

took_runs :
    (o : Runner) (s : Work)
    → OwnedAt s.items s.client s.callback o s.word.state
    → o ≡ took
    → ((runner_step o s).runs ≡ s.runs + 1) × (s.items ≡ 0)
unfolding runner_step
took_runs took s h e = (ground arith, ground arith)
took_runs resting s h e = absurd (cc)
took_runs calling s h e = absurd (cc)

-- In such a run, an entry that the queue's thread takes finds its item queued, so that run_work runs the
-- callback, and no other entry is in the queue.
pub took-runs :
    (es : List Event) (valid : Bool) (now : ℕ)
    → OrderlyFrom es valid now
    → (after es valid now).runner ≡ took
    → ((step runner_goes (after es valid now)).runs ≡ (after es valid now).runs + 1)
      × ((after es valid now).items ≡ 0)
unfolding step
took-runs es valid now o e =
    let s = after es valid now in took_runs s.runner s (after-Owned es valid now o) e

-- In such a run, when the timer's stop succeeds in a cancel, that call returns ok, and without a new call
-- the callback does not run any more, whatever the timer and the queue still do.
pub cancel-runs :
    (es later : List Event) (valid : Bool) (now : ℕ)
    → OrderlyFrom es valid now
    → (after es valid now).client ≡ halting cancel
    → NoCalls later
    → ((step (client_goes ok) (after es valid now)).client ≡ done ok)
      × ((run later (step (client_goes ok) (after es valid now))).runs ≡ (after es valid now).runs)
cancel-runs es later valid now o e c =
    let s = after es valid now in
    let r = halted-Resting s (after-Owned es valid now o) e in
    (r.1.client, run-Resting later (step (client_goes ok) s) (done ok) s.runs r.0 r.1 refl c)
