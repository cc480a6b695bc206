-- ===== src/Tests/Records.antt =====
-- The theorems on records, transfers, the crawl and the conflict log at concrete inputs.
use autotier.Base.{
  ◌%◌, ◌<◌, ◌≡◌, ◌↔◌, refl, codes, starts_with, List, Text, true, false, none, [], ◌∷◌, ◌++◌, map,
  arith,
}
use autotier.Env.Laws.{word}
use autotier.Tier.{Tier}
use autotier.Env.{Env, going_on}
use autotier.Metadata.{Metadata, metadata_at, update, strip_slash}
use autotier.Metadata.Store.{metadata_at-update}
use autotier.File.{File}
use autotier.OpenFiles.{is_open}
use autotier.OpenFiles.Count.{opened, closed, run, count_run, is_open-run}
use autotier.Transfer.{in_order, Batch, conflict_name, after_move, move_files}
use autotier.Transfer.Balance.{total_usage, move_files-total_usage}
use autotier.Transfer.Record.{new_metadata, metadata_at-after_conflict}
use autotier.Conflicts.{
  put_lines, keep_conflicted, still_conflicted, not_empty, any_starts_with, check_conflicts,
  add_conflict,
}
use autotier.Conflicts.Log.{IsLogFile, Remain, check_conflicts-add_conflict}
use autotier.Regex.{regex_match}
use autotier.Crawl.{Nodes, directory, symlink, other, end, entry, temp_file_re, launch_crawlers}
use autotier.Crawl.Leaves.{
  leaves, leaves_of, measured, movable, temp_file_re-never, launch_crawlers-leaves,
}
use autotier.Engine.{tier_round}
use autotier.Engine.Total.{tier_round-total_usage}
use autotier.Tests.Machine.{
  Machine, machine, start, a_stat, machine-IsWordSized, machine-IsStore, machine-IsLogFile,
}
use autotier.Tests.Plan.{tier_at, file_of, two_tiers, three_files}

abbrev a_record : Metadata machine
a_record = record {
  access_count = 3;
  popularity = 9;
  not_found = false;
  pinned = true;
  tier_path = codes "/fast";
}

metadata_at-update_example :
    metadata_at machine (codes "a") (update machine a_record (codes "/a") none []) none ≡ a_record
unfolding strip_slash
metadata_at-update_example =
    metadata_at-update machine machine-IsStore a_record (codes "/a") (codes "a") none none [] _ refl
      refl

is_open-run_example :
    (is_open
        (codes "a")
        (run (opened (codes "a") ∷ opened (codes "a") ∷ closed (codes "a") ∷ []) [])
      ≡ true)
    ↔ (0
        < count_run
            (codes "a")
            (opened (codes "a") ∷ opened (codes "a") ∷ closed (codes "a") ∷ [])
            0)
is_open-run_example =
    is_open-run (opened (codes "a") ∷ opened (codes "a") ∷ closed (codes "a") ∷ []) (codes "a")

abbrev a_batch : Batch machine
a_batch = record {
  files = three_files;
  tiers = map (λ (t : Tier). record t { incoming_files = 0 ∷ [] }) two_tiers;
  db = [];
  open_files = [];
  world = start;
  course = going_on;
}

move_files-total_usage_example :
    total_usage (move_files machine 5 2 (codes "/run") ((0, 0) ∷ (1, 0) ∷ []) a_batch).tiers % word
    ≡ total_usage a_batch.tiers % word
move_files-total_usage_example =
    move_files-total_usage machine machine-IsWordSized 5 2 (codes "/run") ((0, 0) ∷ (1, 0) ∷ [])
      a_batch (omega arith, (omega arith, (omega arith, tt)))

abbrev a_file : File machine
a_file = file_of (codes "a") 6 1

abbrev fast : Tier
fast = tier_at (codes "/fast") 10 6

temp_file_re-never_example : regex_match (codes "/fast/.a.autotier.hide") temp_file_re ≡ false
temp_file_re-never_example = temp_file_re-never (codes "/fast/.a.autotier.hide") refl

abbrev a_tree : Nodes
a_tree =
    entry (directory (codes "/fast/d") (entry (other (codes "/fast/d/x") a_stat) end))
      (entry (symlink (codes "/fast/l")) (entry (other (codes "/fast/y") a_stat) end))

launch_crawlers-leaves_example : launch_crawlers machine [] 0 ((fast, a_tree) ∷ []) [] ≡ (
  map (measured machine []) ((fast, a_tree) ∷ []),
  [] ++ movable machine [] 0 ((fast, a_tree) ∷ []),
)
unfolding leaves leaves_of
launch_crawlers-leaves_example =
    launch_crawlers-leaves machine [] 0 ((fast, a_tree) ∷ []) [] ((refl, (refl, tt)), tt)

metadata_at-after_conflict_example :
    (metadata_at machine
        (conflict_name machine a_file (codes "slow"))
        (after_move machine
          (codes "/run")
          0
          a_file
          0
          fast
          (codes "/fast/a")
          (codes "slow")
          true
          a_batch).db
        none
      ≡ new_metadata machine machine-IsStore a_file fast)
    × ((metadata_at machine
          (codes "a")
          (after_move machine
            (codes "/run")
            0
            a_file
            0
            fast
            (codes "/fast/a")
            (codes "slow")
            true
            a_batch).db
          none).not_found
        ≡ true)
unfolding strip_slash conflict_name
metadata_at-after_conflict_example =
    metadata_at-after_conflict machine machine-IsStore (codes "/run") 0 a_file 0 fast
      (codes "/fast/a") (codes "slow") a_batch _ refl (λ h. ground arith)

-- Next to each path is a copy of `/a` and none of `/b`.
abbrev copied : Env
copied = record machine { dir_paths = λ path w. codes "/a.autotier_conflict.slow" ∷ [] }

copied-IsLogFile : IsLogFile copied
copied-IsLogFile = record {
  read-write = λ path text w w' h. machine-IsLogFile.read-write path text w w' h;
}

-- The log has `/b`, which is resolved.
abbrev logged : Machine
logged = record start { log = codes "/b\n" }

check_conflicts-add_conflict_example :
    (open_ones : List Text) × Remain copied logged (codes "/b" ∷ []) open_ones
    × Remain copied
        (record start { log = codes "/a\n" })
        (open_ones ++ (codes "/a" ∷ []))
        (check_conflicts copied []
          (codes "/run")
          (add_conflict copied (codes "/a") (codes "/run") logged)).0
unfolding put_lines keep_conflicted still_conflicted not_empty any_starts_with starts_with
check_conflicts-add_conflict_example =
    check_conflicts-add_conflict copied copied-IsLogFile (codes "/a") (codes "/run")
      (codes "/b" ∷ []) logged _ (refl, (refl, tt)) ((refl, (refl, tt)), tt) refl refl

tier_round-total_usage_example :
    total_usage
        (tier_round machine
          (λ fs. fs)
          (in_order machine 0)
          5
          60
          5
          2
          (codes "/run")
          ((fast, a_tree) ∷ [])
          []
          []
          start).tiers
      % word
    ≡ total_usage (map (measured machine []) ((fast, a_tree) ∷ [])) % word
unfolding leaves leaves_of
tier_round-total_usage_example =
    tier_round-total_usage machine machine-IsWordSized (λ fs. fs) (λ fs v. v) (in_order machine 0) 5
      60 5 2 (codes "/run") ((fast, a_tree) ∷ []) [] [] start ((refl, (refl, tt)), tt)
      ((omega arith, (omega arith, tt)), tt)
