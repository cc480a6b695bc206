-- ===== src/Adhoc/Drain.antt =====
-- `execute_queued_work` of src/impl/autotierfs/TierEngine/components/adhoc.cpp: the tiering thread
-- takes the queued jobs one by one until there is none.
use autotier.Base.{ℕ, zero, suc, Text, Option, none, some, List, [], ◌∷◌}
use autotier.Env.{Env, Course, going_on, threw, copying}
use autotier.Commands.{Command, AdHoc, Work, oneshot, pin, unpin, enqueue_work, take_work}
use autotier.Adhoc.{Service, push_work}
use autotier.Adhoc.Pinning.{pin_files, unpin_files}

-- What another thread does to the queue while a job runs: the socket server pushes a job, or a
-- callback enqueues one.
pub data Arrival : Type 0 where
  pushed : AdHoc → Arrival
  enqueued : Command → List Text → Arrival

unfoldable pub arrive : List Arrival → Work → Work
arrive [] w = w
arrive (pushed work ∷ rest) w = arrive rest (push_work work w)
arrive (enqueued job args ∷ rest) w = arrive rest (enqueue_work job args w)

abbrev pub first_arrivals : List (List Arrival) → List Arrival
first_arrivals [] = []
first_arrivals (now ∷ later) = now

abbrev pub later_arrivals : List (List Arrival) → List (List Arrival)
later_arrivals [] = []
later_arrivals (now ∷ later) = later

-- `tier` is the round of tiering, `copy_fuel` the fuel of the copying loop, and `arrivals` lists
-- what comes in while the first job runs, the second, and so on.
module _ (E : Env) (tier : Service E → Service E) (copy_fuel : ℕ) where
  -- The `switch`; another command is only warned about.
  unfoldable pub execute : AdHoc → Service E → Service E
  execute work s = elim work.cmd [
    | none ↦ s
    | some oneshot ↦ tier s
    | some pin ↦ pin_files E copy_fuel work.args s
    | some unpin ↦ unpin_files E work.args s
    | some _ ↦ s
  ]

  -- The state with what arrived.
  abbrev pub arrived : List Arrival → Service E → Service E
  arrived now s = record s { work = arrive now s.work }

  -- The test of the loop. An exception ends it too; a job that is in a copy does not come back.
  abbrev pub unless_done :
      Course
      → Option (AdHoc × Work)
      → Service E
      → (AdHoc → Work → Option (Service E))
      → Option (Service E)
  unless_done threw next s continue = some s
  unless_done copying next s continue = none
  unless_done going_on none s continue = some s
  unless_done going_on (some (work, rest)) s continue = continue work rest

  -- `none` is a loop that has not ended after as many jobs as the fuel, or that is in a copy.
  unfoldable pub execute_queued_work : ℕ → List (List Arrival) → Service E → Option (Service E)
  unfolding execute
  execute_queued_work zero arrivals s = none
  execute_queued_work (suc fuel) arrivals s = unless_done s.course (take_work s.work) s λ work rest.
      execute_queued_work fuel (later_arrivals arrivals)
        (arrived (first_arrivals arrivals) (execute work (record s { work = rest })))
