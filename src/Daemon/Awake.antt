-- ===== src/Daemon/Awake.antt =====
-- Where the tiering thread can be: no place of another mode, and no wait once it is asked to stop.
use autotier.Base.{ℕ, ◌≡◌, ◌≢◌, sym, ◌∙◌, Bool, true, false, Option, some}
use autotier.Env.{Env, copying}
use autotier.Adhoc.{Service}
use autotier.Daemon.{
  Phase, head, jobs, asleep, before_round, in_round, inner, jobs_until, asleep_until, outer, ended,
  crashed, throws, throws_in_round, throws_until, WorkerStep, stops, goes_on, executes, woken,
  starts, finishes, skips, waits, leaves, executes_until, woken_until, blocks, sleeps, blocks_until,
  sleeps_until, times_out, blocking, waiting, blocking_until, waiting_until, signal, holds_mutex,
  wakes_spuriously, again, stops_outer, State, request_stop, queue_jobs, worker, stop_requested,
  jobs_queued, others_act, time_passed, Steps, here, then_step,
}

-- The places of the outer loop are there with a period only.
abbrev pub Fits : Option ℕ → Phase → Type 0
Fits period head = Unit
Fits period jobs = Unit
Fits period asleep = Unit
Fits period blocking = Unit
Fits period waiting = Unit
Fits period ended = Unit
Fits period crashed = Unit
Fits period _ = (p : ℕ) × (period ≡ some p)

differ : true ≢ false
differ h = cc

module _ (E : Env) (tier : Service E → Service E) (copy_fuel : ℕ) (period : Option ℕ) where
  WorkerStep-Fits :
      {stop_flag : Bool} {now : ℕ} {f g : Phase} {s t : Service E}
      → WorkerStep E tier copy_fuel period stop_flag now f s g t
      → Fits period f
      → Fits period g
  WorkerStep-Fits (stops e) h = tt
  WorkerStep-Fits (goes_on e) h = tt
  WorkerStep-Fits (executes fuel arrivals e c) h = tt
  WorkerStep-Fits (throws fuel arrivals e c) h = tt
  WorkerStep-Fits (woken e) h = tt
  WorkerStep-Fits (blocks e) h = tt
  WorkerStep-Fits sleeps h = tt
  WorkerStep-Fits (starts p e) h = h
  WorkerStep-Fits (finishes c) h = h
  WorkerStep-Fits (throws_in_round c) h = tt
  WorkerStep-Fits (skips p e) h = h
  WorkerStep-Fits (waits l e) h = h
  WorkerStep-Fits (leaves e) h = h
  WorkerStep-Fits (executes_until fuel arrivals e c) h = h
  WorkerStep-Fits (throws_until fuel arrivals e c) h = tt
  WorkerStep-Fits (woken_until e) h = h
  WorkerStep-Fits (blocks_until e) h = h
  WorkerStep-Fits sleeps_until h = h
  WorkerStep-Fits (times_out e) h = h
  WorkerStep-Fits (again e) h = h
  WorkerStep-Fits (stops_outer e) h = tt

  -- The thread does not wait once the flag is set, and is where it can be.
  abbrev pub IsAwake : Bool → Phase → Type 0
  IsAwake true blocking = ⊥
  IsAwake true waiting = ⊥
  IsAwake true (blocking_until wake_time) = ⊥
  IsAwake true (waiting_until wake_time) = ⊥
  IsAwake stop_flag f = Unit

  pub WorkerStep-IsAwake :
      (stop_flag : Bool) {now : ℕ} {f g : Phase} {s t : Service E}
      → WorkerStep E tier copy_fuel period stop_flag now f s g t
      → IsAwake stop_flag f
      → IsAwake stop_flag g
  WorkerStep-IsAwake false w h = tt
  WorkerStep-IsAwake true (stops e) h = tt
  WorkerStep-IsAwake true (goes_on e) h = tt
  WorkerStep-IsAwake true (executes fuel arrivals e c) h = tt
  WorkerStep-IsAwake true (throws fuel arrivals e c) h = tt
  WorkerStep-IsAwake true (woken e) h = tt
  WorkerStep-IsAwake true (blocks e) h = absurd (differ e.0)
  WorkerStep-IsAwake true sleeps h = h
  WorkerStep-IsAwake true (starts p e) h = tt
  WorkerStep-IsAwake true (finishes c) h = tt
  WorkerStep-IsAwake true (throws_in_round c) h = tt
  WorkerStep-IsAwake true (skips p e) h = tt
  WorkerStep-IsAwake true (waits l e) h = tt
  WorkerStep-IsAwake true (leaves e) h = tt
  WorkerStep-IsAwake true (executes_until fuel arrivals e c) h = tt
  WorkerStep-IsAwake true (throws_until fuel arrivals e c) h = tt
  WorkerStep-IsAwake true (woken_until e) h = tt
  WorkerStep-IsAwake true (blocks_until e) h = absurd (differ e.0)
  WorkerStep-IsAwake true sleeps_until h = h
  WorkerStep-IsAwake true (times_out e) h = tt
  WorkerStep-IsAwake true (again e) h = tt
  WorkerStep-IsAwake true (stops_outer e) h = tt

  signal-Fits : (f : Phase) → Fits period f → Fits period (signal f)
  unfolding signal
  signal-Fits head h = h
  signal-Fits jobs h = h
  signal-Fits asleep h = h
  signal-Fits blocking h = h
  signal-Fits waiting h = h
  signal-Fits before_round h = h
  signal-Fits (in_round w) h = h
  signal-Fits (inner w) h = h
  signal-Fits (jobs_until w) h = h
  signal-Fits (asleep_until w) h = h
  signal-Fits (blocking_until w) h = h
  signal-Fits (waiting_until w) h = h
  signal-Fits outer h = h
  signal-Fits ended h = h
  signal-Fits crashed h = h

  signal-IsAwake :
      (stop_flag : Bool) (f : Phase) → IsAwake stop_flag f → IsAwake stop_flag (signal f)
  unfolding signal
  signal-IsAwake false f h = tt
  signal-IsAwake true head h = tt
  signal-IsAwake true jobs h = tt
  signal-IsAwake true asleep h = tt
  signal-IsAwake true blocking h = h
  signal-IsAwake true waiting h = tt
  signal-IsAwake true before_round h = tt
  signal-IsAwake true (in_round w) h = tt
  signal-IsAwake true (inner w) h = tt
  signal-IsAwake true (jobs_until w) h = tt
  signal-IsAwake true (asleep_until w) h = tt
  signal-IsAwake true (blocking_until w) h = h
  signal-IsAwake true (waiting_until w) h = tt
  signal-IsAwake true outer h = tt
  signal-IsAwake true ended h = tt
  signal-IsAwake true crashed h = tt

  -- A stop wakes the thread, which is not in between its test and its wait.
  signal_stop : (f : Phase) → holds_mutex f ≡ false → IsAwake true (signal f)
  unfolding signal
  signal_stop head m = tt
  signal_stop jobs m = tt
  signal_stop asleep m = tt
  signal_stop blocking m = absurd (differ m)
  signal_stop waiting m = tt
  signal_stop before_round m = tt
  signal_stop (in_round w) m = tt
  signal_stop (inner w) m = tt
  signal_stop (jobs_until w) m = tt
  signal_stop (asleep_until w) m = tt
  signal_stop (blocking_until w) m = absurd (differ m)
  signal_stop (waiting_until w) m = tt
  signal_stop outer m = tt
  signal_stop ended m = tt
  signal_stop crashed m = tt

  pub Steps-Fits :
      {s t : State E tier copy_fuel period}
      → Steps E tier copy_fuel period s t
      → Fits period s.phase × IsAwake s.stop_flag s.phase
      → Fits period t.phase × IsAwake t.stop_flag t.phase
  unfolding request_stop queue_jobs
  Steps-Fits here h = h
  Steps-Fits (then_step a (worker w) more) h =
      Steps-Fits more (WorkerStep-Fits w h.0, WorkerStep-IsAwake _ w h.1)
  Steps-Fits (then_step a (stop_requested m) more) h =
      Steps-Fits more (signal-Fits _ h.0, signal_stop _ m)
  Steps-Fits (then_step a (jobs_queued arrivals) more) h =
      Steps-Fits more (signal-Fits _ h.0, signal-IsAwake _ _ h.1)
  Steps-Fits (then_step a (others_act arrivals u e c) more) h = Steps-Fits more h
  Steps-Fits (then_step a wakes_spuriously more) h =
      Steps-Fits more (signal-Fits _ h.0, signal-IsAwake _ _ h.1)
  Steps-Fits (then_step a (time_passed n l) more) h = Steps-Fits more h

  WorkerStep-IsBack :
      {stop_flag : Bool} {now : ℕ} {f g : Phase} {s t : Service E}
      → WorkerStep E tier copy_fuel period stop_flag now f s g t
      → s.course ≢ copying
      → t.course ≢ copying
  WorkerStep-IsBack (executes fuel arrivals e c) h = λ k. cc
  WorkerStep-IsBack (throws fuel arrivals e c) h = λ k. cc
  WorkerStep-IsBack (finishes c) h = λ k. cc
  WorkerStep-IsBack (throws_in_round c) h = λ k. cc
  WorkerStep-IsBack (executes_until fuel arrivals e c) h = λ k. cc
  WorkerStep-IsBack (throws_until fuel arrivals e c) h = λ k. cc
  WorkerStep-IsBack (stops e) h = h
  WorkerStep-IsBack (goes_on e) h = h
  WorkerStep-IsBack (woken e) h = h
  WorkerStep-IsBack (blocks e) h = h
  WorkerStep-IsBack sleeps h = h
  WorkerStep-IsBack (starts p e) h = h
  WorkerStep-IsBack (skips p e) h = h
  WorkerStep-IsBack (waits l e) h = h
  WorkerStep-IsBack (leaves e) h = h
  WorkerStep-IsBack (woken_until e) h = h
  WorkerStep-IsBack (blocks_until e) h = h
  WorkerStep-IsBack sleeps_until h = h
  WorkerStep-IsBack (times_out e) h = h
  WorkerStep-IsBack (again e) h = h
  WorkerStep-IsBack (stops_outer e) h = h

  -- Between its steps the thread is not in a copy.
  pub Steps-IsBack :
      {s t : State E tier copy_fuel period}
      → Steps E tier copy_fuel period s t
      → s.service.course ≢ copying
      → t.service.course ≢ copying
  unfolding request_stop queue_jobs
  Steps-IsBack here h = h
  Steps-IsBack (then_step a (worker w) more) h = Steps-IsBack more (WorkerStep-IsBack w h)
  Steps-IsBack (then_step a (stop_requested m) more) h = Steps-IsBack more h
  Steps-IsBack (then_step a (jobs_queued arrivals) more) h = Steps-IsBack more h
  Steps-IsBack (then_step a (others_act arrivals u e c) more) h =
      Steps-IsBack more (λ k. h (sym c ∙ k))
  Steps-IsBack (then_step a wakes_spuriously more) h = Steps-IsBack more h
  Steps-IsBack (then_step a (time_passed n l) more) h = Steps-IsBack more h
