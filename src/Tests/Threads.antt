-- ===== src/Tests/Threads.antt =====
-- The theorems on the tiering thread at concrete states.
use autotier.Base.{◌+◌, ◌≡◌, ◌≢◌, refl, true, false, Option, none, some, arith, ℕ}
use autotier.Daemon.{
  Phase, asleep, asleep_until, jobs, jobs_until, begin, State, Steps, here, then_step, worker,
  starts, request_stop, signal, stop_requested,
}
use autotier.Daemon.Stopping.{Worked, asleep-Worked}
use autotier.Daemon.Starved.{begin-never_executes}
use autotier.Adhoc.{Service}
use autotier.Adhoc.Round.{tier_work, tier_course}
use autotier.Transfer.{in_order}
use autotier.Env.{copying}
use autotier.Tests.Copies.{machine-CopiesEnd}
use autotier.Tests.Machine.{machine}
use autotier.Tests.Jobs.{a_service, a_round, empty_backends}

pub keeps : (s : Service machine) → (a_round s).work ≡ s.work
keeps s = tier_work machine (λ fs. fs) (in_order machine 0) empty_backends 5 60 5 s

pub rounds : (s : Service machine) → (a_round s).course ≢ copying
rounds s =
    tier_course machine (λ fs. fs) (in_order machine 0) empty_backends 5 60 5 s machine-CopiesEnd

abbrev started : (period : Option ℕ) → State machine a_round 5 period
started period = record { phase = begin period; service = a_service; stop_flag = false; now = 9 }

-- A stop is requested during the first round.
abbrev stopping : State machine a_round 5 (some 3)
stopping = record {
  phase = Phase.in_round (9 + 3);
  service = record a_service { currently_tiering = true };
  stop_flag = true;
  now = 9;
}

to_stopping : Steps machine a_round 5 (some 3) (started (some 3)) stopping
unfolding begin request_stop signal
to_stopping = then_step tt (worker (starts 3 refl)) (then_step tt (stop_requested refl) here)

asleep-Worked_example :
    Worked machine a_round 5 none keeps rounds machine-CopiesEnd false 9 asleep asleep a_service
    × Worked machine a_round 5 none keeps rounds machine-CopiesEnd false 9
        (asleep_until 12)
        (asleep_until 12)
        a_service
asleep-Worked_example =
    asleep-Worked machine a_round 5 none keeps rounds machine-CopiesEnd 9 12 a_service (λ e. cc)
      (λ h. cc) (omega arith)

begin-never_executes_example :
    ((started (some 0)).phase ≢ jobs) × ((started (some 0)).phase ≢ jobs_until 12)
begin-never_executes_example =
    begin-never_executes machine a_round 5 (started (some 0)) (started (some 0)) 12 refl here
