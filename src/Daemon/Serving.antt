-- ===== src/Daemon/Serving.antt =====
-- The thread of the socket server, `process_adhoc_requests` of
-- src/impl/autotierfs/TierEngine/components/adhoc.cpp, beside the tiering thread: what `init` of
-- src/impl/autotierfs/fuseOps/init.cpp starts and `destroy` of destroy.cpp beside it stops and
-- joins. Errors of the socket are steps of its own.
use autotier.Base.{ℕ, suc, ◌≡◌, Text, Bool, true, false, Option, some, List}
use autotier.Env.{Env}
use autotier.Adhoc.{Service, Reply}
use autotier.Adhoc.Server.{process_request}
use autotier.Daemon.{State, Step, IsAlive, signal, begin}

-- The head of the loop, the wait for a connection and its data, a request that was received, what
-- follows its answer, and the end.
pub data ServerPhase : Type 0 where
  at_test listening notifying returned : ServerPhase
  serving : List Text → ServerPhase

module _ (E : Env) (tier : Service E → Service E) (copy_fuel : ℕ) (period : Option ℕ)
    (version : Text) (dump : Service E → Text) where
  -- `shut` is set once the socket was shut down: the wait fails with EINVAL, which ends the loop if
  -- `stop_flag_` is set. A request without a defined result is not answered.
  pub data ServerStep (stop_flag shut : Bool)
      : ServerPhase → Service E → ServerPhase → Service E → Type 0 where
    returns : {s : Service E} → stop_flag ≡ true → ServerStep stop_flag shut at_test s returned s
    listens : {s : Service E} → stop_flag ≡ false → ServerStep stop_flag shut at_test s listening s
    receives :
        {s : Service E} (payload : List Text)
        → ServerStep stop_flag shut listening s (serving payload) s
    fails : {s : Service E} → ServerStep stop_flag shut listening s at_test s
    leaves_shut :
        {s : Service E}
        → shut ≡ true
        → stop_flag ≡ true
        → ServerStep stop_flag shut listening s returned s
    answers :
        {s t : Service E} {payload : List Text} (reply : Reply)
        → process_request E version dump payload s ≡ some (reply, t)
        → ServerStep stop_flag shut (serving payload) s notifying t

  pub record Mounted : Type 0 where
    pub daemon : State E tier copy_fuel period
    pub server : ServerPhase
    pub shut : Bool

  -- `init`: both threads start.
  unfoldable pub init_threads : Service E → ℕ → Mounted
  init_threads service now = record {
    daemon = record { phase = begin period; service = service; stop_flag = false; now = now };
    server = at_test;
    shut = false;
  }

  -- A step of the server, its signal after an answer, the shutdown of the socket at the end of
  -- `stop`, and all else.
  pub data MountStep : Mounted → Mounted → Type 0 where
    serves :
        {s : Mounted} {server : ServerPhase} {service : Service E}
        → ServerStep s.daemon.stop_flag s.shut s.server s.daemon.service server service
        → MountStep s
            (record s { daemon = record (s.daemon) { service = service }; server = server })
    notifies :
        {s : Mounted}
        → s.server ≡ notifying
        → MountStep s (record s {
          daemon = record (s.daemon) { phase = signal s.daemon.phase };
          server = at_test;
        })
    shuts_down : {s : Mounted} → s.daemon.stop_flag ≡ true → MountStep s (record s { shut = true })
    others :
        {s : Mounted} {daemon : State E tier copy_fuel period}
        → Step E tier copy_fuel period s.daemon daemon
        → MountStep s (record s { daemon = daemon })

  pub data MountSteps : Mounted → Mounted → Type 0 where
    no_step : {s : Mounted} → MountSteps s s
    then_step :
        {s t u : Mounted} → IsAlive s.daemon.phase → MountStep s t → MountSteps t u → MountSteps s u

  -- A number of the server's own steps, where nothing else changes the state.
  pub data Serves (stop_flag shut : Bool)
      : ℕ → ServerPhase → Service E → ServerPhase → Service E → Type 0 where
    done : {f : ServerPhase} {s : Service E} → Serves stop_flag shut 0 f s f s
    next :
        {n : ℕ} {f g h : ServerPhase} {s t u : Service E}
        → ServerStep stop_flag shut f s g t
        → Serves stop_flag shut n g t h u
        → Serves stop_flag shut (suc n) f s h u
    next_signal :
        {n : ℕ} {h : ServerPhase} {s u : Service E}
        → Serves stop_flag shut n at_test s h u
        → Serves stop_flag shut (suc n) notifying s h u
