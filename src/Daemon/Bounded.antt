-- ===== src/Daemon/Bounded.antt =====
-- How many steps each thread can still take once it is to end.
use autotier.Base.{ℕ, ◌+◌, ◌≤◌, ◌<◌, ◌≡◌, Text, true, Option, arith}
use autotier.Env.{Env}
use autotier.Adhoc.{Service}
use autotier.Daemon.{
  Phase, head, jobs, asleep, before_round, in_round, inner, jobs_until, asleep_until, outer, ended,
  crashed, throws, throws_in_round, throws_until, WorkerStep, stops, goes_on, executes, woken,
  blocks, sleeps, starts, finishes, skips, waits, leaves, executes_until, woken_until, blocks_until,
  sleeps_until, times_out, again, stops_outer,
}
use autotier.Daemon.Awake.{IsAwake, WorkerStep-IsAwake, Steps-Fits}
use autotier.Daemon.Stopping.{Runs, no_step, next_step, begin-Fits}
use autotier.Daemon.Serving.{
  ServerPhase, at_test, listening, notifying, returned, serving, ServerStep, returns, listens,
  receives, fails, leaves_shut, answers, Mounted, init_threads, MountSteps, Serves, done, next,
  next_signal,
}
use autotier.Daemon.Joined.{MountSteps-Steps}

-- The steps that are left to the tiering thread.
abbrev rank : Phase → ℕ
rank ended = 0
rank crashed = 0
rank head = 1
rank asleep = 2
rank jobs = 3
rank outer = 1
rank (inner wake_time) = 2
rank (in_round wake_time) = 3
rank before_round = 4
rank (asleep_until wake_time) = 3
rank (jobs_until wake_time) = 4
rank _ = 0

rank-le : (f : Phase) → rank f ≤ 4
rank-le head = omega arith
rank-le _ = omega arith

module _ (E : Env) (tier : Service E → Service E) (copy_fuel : ℕ) (period : Option ℕ) where
  WorkerStep-rank :
      {now : ℕ} {f g : Phase} {s t : Service E}
      → WorkerStep E tier copy_fuel period true now f s g t
      → IsAwake E tier copy_fuel period true f
      → rank g < rank f
  WorkerStep-rank (stops e) a = omega arith
  WorkerStep-rank (goes_on e) a = cc
  WorkerStep-rank (executes fuel arrivals e c) a = omega arith
  WorkerStep-rank (throws fuel arrivals e c) a = omega arith
  WorkerStep-rank (woken e) a = omega arith
  WorkerStep-rank (blocks e) a = let f = e.0 in cc
  WorkerStep-rank sleeps a = absurd a
  WorkerStep-rank (starts p e) a = omega arith
  WorkerStep-rank (finishes c) a = omega arith
  WorkerStep-rank (throws_in_round c) a = omega arith
  WorkerStep-rank (skips p e) a = omega arith
  WorkerStep-rank (waits l e) a = cc
  WorkerStep-rank (leaves e) a = omega arith
  WorkerStep-rank (executes_until fuel arrivals e c) a = omega arith
  WorkerStep-rank (throws_until fuel arrivals e c) a = omega arith
  WorkerStep-rank (woken_until e) a = omega arith
  WorkerStep-rank (blocks_until e) a = let f = e.0 in cc
  WorkerStep-rank sleeps_until a = absurd a
  WorkerStep-rank (times_out e) a = absurd a
  WorkerStep-rank (again e) a = cc
  WorkerStep-rank (stops_outer e) a = omega arith

  Runs-le :
      {now n : ℕ} {f g : Phase} {s t : Service E}
      → Runs E tier copy_fuel period true now n f s g t
      → IsAwake E tier copy_fuel period true f
      → n + rank g ≤ rank f
  Runs-le no_step a = omega arith
  Runs-le (next_step w more) a =
      let less = WorkerStep-rank w a in
      let rest = Runs-le more (WorkerStep-IsAwake E tier copy_fuel period true w a) in omega arith

  module _ (version : Text) (dump : Service E → Text) where
    abbrev server_rank : ServerPhase → ℕ
    server_rank returned = 0
    server_rank at_test = 1
    server_rank notifying = 2
    server_rank (serving payload) = 3
    server_rank listening = 4

    ServerStep-rank :
        {f g : ServerPhase} {s t : Service E}
        → ServerStep E tier copy_fuel period version dump true true f s g t
        → server_rank g < server_rank f
    ServerStep-rank (returns e) = omega arith
    ServerStep-rank (listens e) = cc
    ServerStep-rank (receives payload) = omega arith
    ServerStep-rank fails = omega arith
    ServerStep-rank (leaves_shut e f) = omega arith
    ServerStep-rank (answers reply e) = omega arith

    Serves-le :
        {n : ℕ} {f g : ServerPhase} {s t : Service E}
        → Serves E tier copy_fuel period version dump true true n f s g t
        → n + server_rank g ≤ server_rank f
    Serves-le done = omega arith
    Serves-le (next w more) =
        let less = ServerStep-rank w in let rest = Serves-le more in omega arith
    Serves-le (next_signal more) = let rest = Serves-le more in omega arith

    server_rank-le : (f : ServerPhase) → server_rank f ≤ 4
    server_rank-le returned = omega arith
    server_rank-le at_test = omega arith
    server_rank-le notifying = omega arith
    server_rank-le (serving payload) = omega arith
    server_rank-le listening = omega arith

    -- From `init` on, whatever the threads do: once `destroy` has set the flag and shut the socket
    -- down, each run of the tiering thread's own steps from there has at most four of them, and
    -- each of the server's too. The rest of a round, or the run of the queued jobs, is one step of
    -- the tiering thread, which is taken once its copies have ended.
    pub init_threads-bounded :
        (service : Service E) (now : ℕ) (t : Mounted E tier copy_fuel period version dump) {n m : ℕ}
        {g : Phase} {h : ServerPhase} {u v : Service E}
        → MountSteps E tier copy_fuel period version dump
            (init_threads E tier copy_fuel period version dump service now)
            t
        → t.daemon.stop_flag ≡ true
        → t.shut ≡ true
        → Runs E tier copy_fuel period t.daemon.stop_flag t.daemon.now n t.daemon.phase
            t.daemon.service g u
        → Serves E tier copy_fuel period version dump t.daemon.stop_flag t.shut m t.server
            t.daemon.service h v
        → (n ≤ 4) × (m ≤ 4)
    unfolding init_threads
    init_threads-bounded service now t run e shut own served =
        let (fits, awake) =
          Steps-Fits E tier copy_fuel period
            (MountSteps-Steps E tier copy_fuel period version dump run)
            (begin-Fits E tier copy_fuel period, tt) in
        let up = Runs-le (rw e at own) (rw e at awake) in
        let down = Serves-le (rw (e, shut) at served) in
        (omega (arith, rank-le t.daemon.phase), omega (arith, server_rank-le t.server))
