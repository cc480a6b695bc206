-- ===== src/Tests/Jobs.antt =====
-- The theorems on ad hoc commands at concrete inputs.
use autotier.Base.{
  ◌+◌, ◌%◌, ◌^◌, ◌≡◌, refl, text_eq, starts_with, codes, List, map, false, none, some, [], ◌∷◌,
  ◌++◌, arith, if◌then◌else◌,
}
use autotier.Base.Dict.{lookup}
use autotier.Env.{going_on}
use autotier.Metadata.{metadata_at, strip_slash, deserialize}
use autotier.Commands.{AdHoc, oneshot, pin, unpin}
use autotier.Crawl.{Nodes, end, emplace_file}
use autotier.Tier.{Tier}
use autotier.Transfer.{in_order}
use autotier.Adhoc.{Service, tier_by_id, open_args}
use autotier.Adhoc.Pinning.{pin_files, pin_file, unpin_files}
use autotier.Adhoc.Drain.{pushed, enqueued, execute_queued_work}
use autotier.Adhoc.Progress.{total_weight, Drained, execute_queued_work-Drained}
use autotier.Adhoc.Growth.{load, arrivals_weight}
use autotier.Copy.{
  move_file, or_throw, or_fail, after_copy, copy_loop, after_read, proceed, after_write, ran_out,
  finish_move,
}
use autotier.Adhoc.Round.{tier, tier_work, tier_course}
use autotier.Adhoc.Unpinned.{any_names, unpinned_record, metadata_at-unpin_files}
use autotier.Adhoc.Pinned.{IsPinOf, pinned_to, pin_files-IsPinOf}
use autotier.Adhoc.Copied.{Copies, emplace_file-pin_file}
use autotier.Adhoc.Requests.{open_args_never}
use autotier.Adhoc.Server.{process_request}
use autotier.Adhoc.Arriving.{Answers, process_request-Answers}
use autotier.Tests.Machine.{Machine, machine, start, a_stat, machine-IsStore}
use autotier.Tests.Copies.{machine-CopiesEnd}
use autotier.Tests.Mounted.{machine-Accepts}
use autotier.Tests.Plan.{tier_at, two_tiers}

abbrev pin_job : AdHoc
pin_job = record { cmd = some pin; args = codes "/fast" ∷ codes "/m/a" ∷ [] }

abbrev unpin_job : AdHoc
unpin_job = record { cmd = some unpin; args = codes "/m/a" ∷ [] }

-- The file `a` is in the slow tier.
abbrev pub a_service : Service machine
a_service = record {
  tiers = two_tiers;
  db = (codes "a", 3 ∷ 9 ∷ 0 ∷ codes "/slow") ∷ [];
  open_files = (codes "/slow/a", 1) ∷ [];
  work = record {
    adhoc_work = record { queue = pin_job ∷ unpin_job ∷ [] };
    oneshot_in_queue = false;
  };
  mount_point = codes "/m";
  run_path = codes "/run";
  strict_period = false;
  copy_buff_sz = 2;
  currently_tiering = false;
  world = start;
  course = going_on;
}

abbrev pub empty_backends : List Tier → Machine → List (Tier × Nodes)
empty_backends tiers w = map (λ t. (t, end)) tiers

abbrev pub a_round : Service machine → Service machine
a_round = tier machine (λ fs. fs) (in_order machine 0) empty_backends 5 60 5

-- While the first job runs a callback asks for tiering, and then the server pushes another job.
execute_queued_work-Drained_example :
    Drained machine a_round 5 a_service.work.adhoc_work.queue
      ((enqueued oneshot [] ∷ []) ∷ (pushed unpin_job ∷ []) ∷ [])
      a_service
      (execute_queued_work machine a_round 5 9
        ((enqueued oneshot [] ∷ []) ∷ (pushed unpin_job ∷ []) ∷ [])
        a_service)
unfolding total_weight load arrivals_weight
execute_queued_work-Drained_example =
    execute_queued_work-Drained machine a_round 5
      (λ s. tier_work machine (λ fs. fs) (in_order machine 0) empty_backends 5 60 5 s)
      (λ s.
        tier_course machine (λ fs. fs) (in_order machine 0) empty_backends 5 60 5 s
          machine-CopiesEnd)
      machine-CopiesEnd 9 ((enqueued oneshot [] ∷ []) ∷ (pushed unpin_job ∷ []) ∷ []) a_service
      (λ e. cc) (omega arith)

metadata_at-unpin_files_example :
    metadata_at machine (codes "a") (unpin_files machine (codes "/m/a" ∷ []) a_service).db none ≡ (
      if any_names machine (codes "/m") (codes "a") (codes "/m/a" ∷ [])
      then unpinned_record machine (metadata_at machine (codes "a") a_service.db none)
      else metadata_at machine (codes "a") a_service.db none)
metadata_at-unpin_files_example =
    metadata_at-unpin_files machine machine-IsStore machine-Accepts (codes "/m/a" ∷ []) (codes "a")
      a_service

pin_files-IsPinOf_example :
    IsPinOf machine (codes "/fast") (metadata_at machine (codes "a") a_service.db none) (
      metadata_at machine
        (codes "a")
        (pin_files machine 5 (codes "/fast" ∷ codes "/m/a" ∷ []) a_service).db
        none)
unfolding tier_by_id text_eq
pin_files-IsPinOf_example =
    pin_files-IsPinOf machine machine-IsStore machine-Accepts (tier_at (codes "/fast") 10 6) 5
      (codes "/fast") (codes "/m/a" ∷ []) (codes "a") a_service refl

a_file-Copies :
    Copies machine machine-IsStore machine-Accepts
      (tier_at (codes "/fast") 10 6)
      5
      (codes "/m/a")
      a_service
unfolding metadata_at strip_slash deserialize lookup text_eq move_file or_throw or_fail after_copy
    copy_loop after_read proceed after_write ran_out finish_move
a_file-Copies = record {
  there = refl;
  elsewhere = refl;
  info = a_stat;
  stat_world = start;
  has_stat = refl;
  last_world = _;
  is_moved = refl;
}

open_args_never_example :
    open_args (codes "/" ++ (b'm' ∷ [])) a_service.open_files (codes "/m/a" ∷ []) ≡ []
unfolding starts_with
open_args_never_example =
    open_args_never (codes "/") b'm' (codes "/m/a" ∷ []) a_service.open_files (λ h. ground arith)
      (refl, tt)

process_request-Answers_example :
    Answers machine
      (codes "1.2")
      (λ s. [])
      a_service
      (process_request machine
        (codes "1.2")
        (λ s. [])
        (codes "pin" ∷ codes "/fast" ∷ codes "/m/a" ∷ [])
        a_service)
process_request-Answers_example =
    process_request-Answers machine (codes "1.2") (λ s. [])
      (codes "pin" ∷ codes "/fast" ∷ codes "/m/a" ∷ []) a_service

emplace_file-pin_file_example :
    (metadata_at machine
        (codes "/a")
        (pin_file machine 5 (tier_at (codes "/fast") 10 6) (codes "/m/a") a_service).1.db
        none
      ≡ pinned_to machine (codes "/fast") (metadata_at machine (codes "/a") a_service.db none))
    × (emplace_file machine
          (pin_file machine 5 (tier_at (codes "/fast") 10 6) (codes "/m/a") a_service).1.db
          0
          (tier_at (codes "/fast") 10 6)
          (codes "/fast/a")
          a_stat
          (record { files = []; usage = 4 })
        ≡ record { files = []; usage = (4 + 7) % 2 ^ 64 })
emplace_file-pin_file_example =
    emplace_file-pin_file machine machine-IsStore machine-Accepts (tier_at (codes "/fast") 10 6) 5
      (codes "/m/a") a_service 0 (codes "/fast/a") a_stat (record { files = []; usage = 4 })
      a_file-Copies refl
