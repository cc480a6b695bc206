-- ===== src/Daemon/Lost.antt =====
-- A signal that is lost.
use autotier.Base.{ℕ, ◌≡◌, refl, Bool, Option, List}
use autotier.Env.{Env}
use autotier.Adhoc.{Service}
use autotier.Adhoc.Drain.{Arrival, arrive}
use autotier.Daemon.{
  Phase, blocking, waiting, WorkerStep, sleeps, State, queue_jobs, signal, worker, jobs_queued,
  Steps, here, then_step,
}

module _ (E : Env) (tier : Service E → Service E) (copy_fuel : ℕ) (period : Option ℕ) where
  -- The thread waits, and no step of its own wakes it.
  pub record IsStuck (s : State E tier copy_fuel period) : Type 0 where
    pub waits : s.phase ≡ waiting
    pub no_step :
        (f : Phase) (t : Service E)
        → ¬ WorkerStep E tier copy_fuel period s.stop_flag s.now waiting s.service f t

  -- Jobs are queued, and signalled, without the mutex of the wait: where the thread without a
  -- period has tested its condition and does not wait yet, the signal is lost. It waits then with
  -- the jobs in the queue, and by no step of its own does it wake.
  pub queue_jobs-IsStuck :
      (arrivals : List Arrival) (s : Service E) (stop_flag : Bool) (now : ℕ)
      → let at_test : State E tier copy_fuel period = record {
        phase = blocking;
        service = s;
        stop_flag = stop_flag;
        now = now;
      } in
        (t : State E tier copy_fuel period) × Steps E tier copy_fuel period at_test t
        × (t.service.work ≡ arrive arrivals s.work)
        × IsStuck t
  unfolding queue_jobs signal
  queue_jobs-IsStuck arrivals s stop_flag now = (
    _,
    then_step tt (jobs_queued arrivals) (then_step tt (worker sleeps) here),
    refl,
    record { waits = refl; no_step = λ f t w. nothing w },
  )
    where
      nothing :
          {f : Phase} {u t : Service E}
          → ¬ WorkerStep E tier copy_fuel period stop_flag now waiting u f t
      nothing w = elim w [ ]
