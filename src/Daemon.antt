-- ===== src/Daemon.antt =====
-- The tiering thread: `begin` and `stop` of
-- src/impl/autotierfs/TierEngine/components/tiering.cpp in daemon mode, and the two ways to sleep
-- of src/impl/autotierfs/TierEngine/components/sleep.cpp, as a step relation. Times are numbers of
-- ticks. A wait tests its condition with the mutex held, which it gives up as it starts to wait for
-- a signal; `stop` takes the mutex, what queues a job does not. A round, or the run of the queued
-- jobs, is a step once it is over: while a copy of it has not ended the thread takes none. An
-- exception in the thread ends the program, with all threads.
pub mod Awake
pub mod Stopping
pub mod Lost
pub mod Starved
pub mod Serving
pub mod Joined
pub mod Bounded
use autotier.Base.{
  ℕ, ◌+◌, ◌≤◌, ◌<◌, ◌≡◌, ◌≢◌, ◌⊎◌, Text, Bool, true, false, Option, none, some, List, [],
}
use autotier.Env.{Env, going_on, threw}
use autotier.Adhoc.{Service}
use autotier.Adhoc.Drain.{Arrival, arrive, execute_queued_work}

-- Where the thread is. Without a period: the head of the loop, the queued jobs, and the sleep:
-- before the test of its condition, after a test that failed, and waiting for a signal. With a
-- period: before a round, in it, the head of the inner loop, the jobs and the sleep, each with the
-- time of the next round, and the end of the outer loop. `crashed`: the program has ended.
pub data Phase : Type 0 where
  head jobs asleep blocking waiting : Phase
  before_round : Phase
  in_round inner jobs_until asleep_until blocking_until waiting_until : ℕ → Phase
  outer : Phase
  ended crashed : Phase

-- `notify_one`: a thread that waits tests its condition again.
unfoldable pub signal : Phase → Phase
signal waiting = asleep
signal (waiting_until wake_time) = asleep_until wake_time
signal f = f

-- The program runs.
abbrev pub IsAlive : Phase → Type 0
IsAlive crashed = ⊥
IsAlive _ = Unit

-- Where the thread holds the mutex.
abbrev pub holds_mutex : Phase → Bool
holds_mutex blocking = true
holds_mutex (blocking_until wake_time) = true
holds_mutex _ = false

-- Where `begin` starts, with the period.
unfoldable pub begin : Option ℕ → Phase
begin none = head
begin (some p) = before_round

-- `tier` is the round, and `period` the time between rounds, `none` where it is negative.
module _ (E : Env) (tier : Service E → Service E) (copy_fuel : ℕ) (period : Option ℕ) where
  -- The condition of both waits.
  abbrev pub IsWoken : Bool → Service E → Type 0
  IsWoken stop_flag s = (stop_flag ≡ true) ⊎ (s.work.adhoc_work.queue ≢ [])

  -- It fails.
  abbrev pub IsIdle : Bool → Service E → Type 0
  IsIdle stop_flag s = (stop_flag ≡ false) × (s.work.adhoc_work.queue ≡ [])

  -- A step of the thread while the flag is `stop_flag` and the time is `now`. A round starts with
  -- the flag `currently_tiering_` and clears it; where its lock is not free there is none.
  pub data WorkerStep (stop_flag : Bool) (now : ℕ)
      : Phase → Service E → Phase → Service E → Type 0 where
    stops : {s : Service E} → stop_flag ≡ true → WorkerStep stop_flag now head s ended s
    goes_on : {s : Service E} → stop_flag ≡ false → WorkerStep stop_flag now head s jobs s
    executes :
        {s t : Service E} (fuel : ℕ) (arrivals : List (List Arrival))
        → execute_queued_work E tier copy_fuel fuel arrivals s ≡ some t
        → t.course ≡ going_on
        → WorkerStep stop_flag now jobs s asleep t
    throws :
        {s t : Service E} (fuel : ℕ) (arrivals : List (List Arrival))
        → execute_queued_work E tier copy_fuel fuel arrivals s ≡ some t
        → t.course ≡ threw
        → WorkerStep stop_flag now jobs s crashed t
    woken : {s : Service E} → IsWoken stop_flag s → WorkerStep stop_flag now asleep s head s
    blocks : {s : Service E} → IsIdle stop_flag s → WorkerStep stop_flag now asleep s blocking s
    sleeps : {s : Service E} → WorkerStep stop_flag now blocking s waiting s
    starts :
        {s : Service E} (p : ℕ)
        → period ≡ some p
        → WorkerStep stop_flag now before_round s
            (in_round (now + p))
            (record s { currently_tiering = true })
    finishes :
        {s : Service E} {wake_time : ℕ}
        → (tier s).course ≡ going_on
        → WorkerStep stop_flag now
            (in_round wake_time)
            s
            (inner wake_time)
            (record (tier s) { currently_tiering = false })
    throws_in_round :
        {s : Service E} {wake_time : ℕ}
        → (tier s).course ≡ threw
        → WorkerStep stop_flag now (in_round wake_time) s crashed (tier s)
    skips :
        {s : Service E} (p : ℕ)
        → period ≡ some p
        → WorkerStep stop_flag now before_round s (inner (now + p)) s
    waits :
        {s : Service E} {wake_time : ℕ}
        → now < wake_time
        → stop_flag ≡ false
        → WorkerStep stop_flag now (inner wake_time) s (jobs_until wake_time) s
    leaves :
        {s : Service E} {wake_time : ℕ}
        → (wake_time ≤ now) ⊎ (stop_flag ≡ true)
        → WorkerStep stop_flag now (inner wake_time) s outer s
    executes_until :
        {s t : Service E} {wake_time : ℕ} (fuel : ℕ) (arrivals : List (List Arrival))
        → execute_queued_work E tier copy_fuel fuel arrivals s ≡ some t
        → t.course ≡ going_on
        → WorkerStep stop_flag now (jobs_until wake_time) s (asleep_until wake_time) t
    throws_until :
        {s t : Service E} {wake_time : ℕ} (fuel : ℕ) (arrivals : List (List Arrival))
        → execute_queued_work E tier copy_fuel fuel arrivals s ≡ some t
        → t.course ≡ threw
        → WorkerStep stop_flag now (jobs_until wake_time) s crashed t
    woken_until :
        {s : Service E} {wake_time : ℕ}
        → IsWoken stop_flag s
        → WorkerStep stop_flag now (asleep_until wake_time) s (inner wake_time) s
    blocks_until :
        {s : Service E} {wake_time : ℕ}
        → IsIdle stop_flag s
        → WorkerStep stop_flag now (asleep_until wake_time) s (blocking_until wake_time) s
    sleeps_until :
        {s : Service E} {wake_time : ℕ}
        → WorkerStep stop_flag now (blocking_until wake_time) s (waiting_until wake_time) s
    times_out :
        {s : Service E} {wake_time : ℕ}
        → wake_time ≤ now
        → WorkerStep stop_flag now (waiting_until wake_time) s (inner wake_time) s
    again : {s : Service E} → stop_flag ≡ false → WorkerStep stop_flag now outer s before_round s
    stops_outer : {s : Service E} → stop_flag ≡ true → WorkerStep stop_flag now outer s ended s

  pub record State : Type 0 where
    pub phase : Phase
    pub service : Service E
    pub stop_flag : Bool
    pub now : ℕ

  -- `stop`, what other threads queue, and the clock.
  unfoldable pub request_stop : State → State
  unfolding signal
  request_stop s = record s { stop_flag = true; phase = signal s.phase }

  unfoldable pub queue_jobs : List Arrival → State → State
  unfolding signal
  queue_jobs arrivals s = record s {
    service = record service { work = arrive arrivals s.service.work };
    phase = signal s.phase;
  }
    where
      open s use {service}

  -- Any thread takes a step, in a program that runs. In `others_act` another thread changes the state of the engine, and
  -- may have added to the queue without having signalled yet.
  pub data Step : State → State → Type 0 where
    worker :
        {s : State} {phase : Phase} {service : Service E}
        → WorkerStep s.stop_flag s.now s.phase s.service phase service
        → Step s (record s { phase = phase; service = service })
    stop_requested : {s : State} → holds_mutex s.phase ≡ false → Step s (request_stop s)
    others_act :
        {s : State} (arrivals : List Arrival) (service : Service E)
        → service.work ≡ arrive arrivals s.service.work
        → service.course ≡ s.service.course
        → Step s (record s { service = service })
    jobs_queued : {s : State} (arrivals : List Arrival) → Step s (queue_jobs arrivals s)
    wakes_spuriously : {s : State} → Step s (record s { phase = signal s.phase })
    time_passed : {s : State} (n : ℕ) → s.now ≤ n → Step s (record s { now = n })

  pub data Steps : State → State → Type 0 where
    here : {s : State} → Steps s s
    then_step : {s t u : State} → IsAlive s.phase → Step s t → Steps t u → Steps s u
