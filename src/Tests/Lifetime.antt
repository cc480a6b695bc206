-- ===== src/Tests/Lifetime.antt =====
-- The theorems on both threads, from the start of a mount to its end, at concrete states.
use autotier.Base.{◌+◌, ◌≤◌, ◌≡◌, refl, codes, true, some, [], ◌∷◌}
use autotier.Daemon.{Phase, starts, signal, stop_requested, request_stop, begin}
use autotier.Daemon.Serving.{
  listening, Mounted, init_threads, MountSteps, no_step, then_step, serves, listens, shuts_down,
  leaves_shut, next, done, others,
}
use autotier.Daemon.Stopping.{Ends, Runs, next_step}
use autotier.Daemon.Stopping as Stopping
use autotier.Adhoc.{Service}
use autotier.Daemon.Bounded.{init_threads-bounded}
use autotier.Daemon.Joined.{Returns, init_threads-Joined}
use autotier.Launch.{launch, verbose, quiet, config_file}
use autotier.Launch.Chosen.{chosen_launch, launch-chosen}
use autotier.Tests.Machine.{machine}
use autotier.Tests.Jobs.{a_service, a_round}
use autotier.Tests.Threads.{keeps, rounds}
use autotier.Tests.Copies.{machine-CopiesEnd}

abbrev AMount : Type 0
AMount = Mounted machine a_round 5 (some 3) (codes "1.2") (λ s. [])

abbrev mounted : AMount
mounted = init_threads machine a_round 5 (some 3) (codes "1.2") (λ s. []) a_service 9

-- The server waits for a connection when a stop is requested and the socket shut down.
abbrev stopped_mount : AMount
stopped_mount = record {
  daemon = request_stop machine a_round 5 (some 3) mounted.daemon;
  server = listening;
  shut = true;
}

to_stopped : MountSteps machine a_round 5 (some 3) (codes "1.2") (λ s. []) mounted stopped_mount
unfolding init_threads request_stop begin
to_stopped =
    then_step tt (serves (listens refl))
      (then_step tt (others (stop_requested refl)) (then_step tt (shuts_down refl) no_step))

init_threads-Joined_example :
    Ends machine a_round 5
      (some 3)
      keeps
      rounds
      machine-CopiesEnd
      stopped_mount.daemon.now
      stopped_mount.daemon.phase
      stopped_mount.daemon.service
    × Returns machine a_round 5
        (some 3)
        (codes "1.2")
        (λ s. [])
        stopped_mount.daemon.stop_flag
        stopped_mount.shut
        stopped_mount.server
        stopped_mount.daemon.service
unfolding request_stop
init_threads-Joined_example =
    init_threads-Joined machine a_round 5 (some 3) (codes "1.2") (λ s. []) keeps rounds
      machine-CopiesEnd a_service 9 stopped_mount (λ e. cc) to_stopped refl refl tt

launch-chosen_example :
    launch (λ path. some true) (verbose ∷ quiet ∷ config_file (codes "/c") ∷ []) (codes "/m" ∷ [])
    ≡ chosen_launch
        (λ path. some true)
        (verbose ∷ quiet ∷ config_file (codes "/c") ∷ [])
        (codes "/m" ∷ [])
launch-chosen_example =
    launch-chosen (λ path. some true) (verbose ∷ quiet ∷ config_file (codes "/c") ∷ [])
      (codes "/m" ∷ [])

abbrev in_last_round : Service machine
in_last_round = record a_service { currently_tiering = true }

last_round :
    Runs machine a_round 5
      (some 3)
      stopped_mount.daemon.stop_flag
      9
      1
      stopped_mount.daemon.phase
      stopped_mount.daemon.service
      (Phase.in_round (9 + 3))
      in_last_round
unfolding init_threads request_stop begin signal
last_round = next_step (starts 3 refl) Stopping.no_step

init_threads-bounded_example : ◌≤◌ 1 4 × ◌≤◌ 1 4
unfolding request_stop init_threads
init_threads-bounded_example =
    init_threads-bounded machine a_round 5 (some 3) (codes "1.2") (λ s. []) a_service 9
      stopped_mount to_stopped refl refl last_round (next (leaves_shut refl refl) done)
