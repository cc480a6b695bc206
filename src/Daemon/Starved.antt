-- ===== src/Daemon/Starved.antt =====
-- A period of 0.
use autotier.Base.{ℕ, ◌≤◌, ◌≡◌, ◌≢◌, refl, Bool, some, arith}
use autotier.Env.{Env}
use autotier.Adhoc.{Service}
use autotier.Daemon.{
  Phase, head, jobs, asleep, before_round, in_round, inner, jobs_until, asleep_until, outer, ended,
  crashed, throws, throws_in_round, throws_until, blocking, waiting, blocking_until, waiting_until,
  signal, blocks, sleeps, blocks_until, sleeps_until, times_out, wakes_spuriously, WorkerStep,
  stops, goes_on, executes, woken, starts, finishes, skips, waits, leaves, executes_until,
  woken_until, again, stops_outer, State, request_stop, queue_jobs, begin, worker, stop_requested,
  jobs_queued, others_act, time_passed, Steps, here, then_step,
}

-- The thread is in its rounds, and the time of the next one has come.
abbrev pub IsLate : ℕ → Phase → Type 0
IsLate now before_round = Unit
IsLate now (in_round wake_time) = wake_time ≤ now
IsLate now (inner wake_time) = wake_time ≤ now
IsLate now outer = Unit
IsLate now ended = Unit
IsLate now crashed = Unit
IsLate now _ = ⊥

IsLate-later : (now n : ℕ) (f : Phase) → now ≤ n → IsLate now f → IsLate n f
IsLate-later now n before_round l h = tt
IsLate-later now n (in_round wake_time) l h = omega arith
IsLate-later now n (inner wake_time) l h = omega arith
IsLate-later now n outer l h = tt
IsLate-later now n ended l h = tt
IsLate-later now n crashed l h = tt
IsLate-later now n head l h = h
IsLate-later now n jobs l h = h
IsLate-later now n asleep l h = h
IsLate-later now n (jobs_until wake_time) l h = h
IsLate-later now n (asleep_until wake_time) l h = h
IsLate-later now n blocking l h = h
IsLate-later now n waiting l h = h
IsLate-later now n (blocking_until wake_time) l h = h
IsLate-later now n (waiting_until wake_time) l h = h

-- A thread that is late does not wait.
signal_late : (now : ℕ) (f : Phase) → IsLate now f → signal f ≡ f
unfolding signal
signal_late now before_round h = refl
signal_late now (in_round wake_time) h = refl
signal_late now (inner wake_time) h = refl
signal_late now outer h = refl
signal_late now ended h = refl
signal_late now crashed h = refl
signal_late now head h = refl
signal_late now jobs h = refl
signal_late now asleep h = refl
signal_late now (jobs_until wake_time) h = refl
signal_late now (asleep_until wake_time) h = refl
signal_late now blocking h = refl
signal_late now waiting h = absurd h
signal_late now (blocking_until wake_time) h = refl
signal_late now (waiting_until wake_time) h = absurd h

signal-IsLate : (now : ℕ) (f : Phase) → IsLate now f → IsLate now (signal f)
signal-IsLate now f h = rw (signal_late now f h) h

zero_of_some : (p : ℕ) → some 0 ≡ some p → p ≡ 0
zero_of_some p e = cc

module _ (E : Env) (tier : Service E → Service E) (copy_fuel : ℕ) where
  worker-IsLate :
      (stop_flag : Bool) (now : ℕ) {f g : Phase} {s t : Service E}
      → WorkerStep E tier copy_fuel (some 0) stop_flag now f s g t
      → IsLate now f
      → IsLate now g
  worker-IsLate stop_flag now (starts p e) h = let z = zero_of_some p e in omega arith
  worker-IsLate stop_flag now (skips p e) h = let z = zero_of_some p e in omega arith
  worker-IsLate stop_flag now (finishes c) h = h
  worker-IsLate stop_flag now (throws_in_round c) h = tt
  worker-IsLate stop_flag now (waits l e) h = absurd (omega arith)
  worker-IsLate stop_flag now (leaves e) h = tt
  worker-IsLate stop_flag now (again e) h = tt
  worker-IsLate stop_flag now (stops_outer e) h = tt
  worker-IsLate stop_flag now (stops e) h = absurd h
  worker-IsLate stop_flag now (goes_on e) h = absurd h
  worker-IsLate stop_flag now (executes fuel arrivals e c) h = absurd h
  worker-IsLate stop_flag now (throws fuel arrivals e c) h = absurd h
  worker-IsLate stop_flag now (woken e) h = absurd h
  worker-IsLate stop_flag now (executes_until fuel arrivals e c) h = absurd h
  worker-IsLate stop_flag now (throws_until fuel arrivals e c) h = absurd h
  worker-IsLate stop_flag now (woken_until e) h = absurd h
  worker-IsLate stop_flag now (blocks e) h = absurd h
  worker-IsLate stop_flag now sleeps h = absurd h
  worker-IsLate stop_flag now (blocks_until e) h = absurd h
  worker-IsLate stop_flag now sleeps_until h = absurd h
  worker-IsLate stop_flag now (times_out e) h = absurd h

  Steps-IsLate :
      {s t : State E tier copy_fuel (some 0)}
      → Steps E tier copy_fuel (some 0) s t
      → IsLate s.now s.phase
      → IsLate t.now t.phase
  unfolding request_stop queue_jobs
  Steps-IsLate here h = h
  Steps-IsLate (then_step a (worker w) more) h = Steps-IsLate more (worker-IsLate _ _ w h)
  Steps-IsLate (then_step a (stop_requested m) more) h = Steps-IsLate more (signal-IsLate _ _ h)
  Steps-IsLate (then_step a (jobs_queued arrivals) more) h = Steps-IsLate more (signal-IsLate _ _ h)
  Steps-IsLate (then_step a (others_act arrivals u e c) more) h = Steps-IsLate more h
  Steps-IsLate (then_step a wakes_spuriously more) h = Steps-IsLate more (signal-IsLate _ _ h)
  Steps-IsLate (then_step a (time_passed n l) more) h = Steps-IsLate more (IsLate-later _ n _ l h)

  -- With a period of 0 the time of the next round has always come, so from the start of `begin`,
  -- whatever the threads do, the tiering thread never comes to where it executes queued jobs.
  pub begin-never_executes :
      (s t : State E tier copy_fuel (some 0)) (wake_time : ℕ)
      → s.phase ≡ begin (some 0)
      → Steps E tier copy_fuel (some 0) s t
      → (t.phase ≢ jobs) × (t.phase ≢ jobs_until wake_time)
  unfolding begin
  begin-never_executes s t wake_time b run =
      let h : IsLate t.now t.phase = Steps-IsLate run (rw b tt) in (λ e. rw e at h, λ e. rw e at h)
