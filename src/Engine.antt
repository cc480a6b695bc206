-- ===== src/Engine.antt =====
-- `tier` of src/impl/autotierfs/TierEngine/components/tiering.cpp: one round of tiering. `sort` is
-- `std::sort` with the comparison of `Ranking`, and `schedule` is the order in which the threads
-- of `move_files` take the files of the queues. The lock is held: a round that does not get it
-- does nothing.
pub mod Total
use autotier.Base.{ℕ, Text, Bool, true, false, List, [], if◌then◌else◌}
use autotier.Env.{Env, going_on, is_halted}
use autotier.Tier.{Tier}
use autotier.File.{File}
use autotier.OpenFiles.{OpenFiles}
use autotier.Crawl.{Nodes, launch_crawlers}
use autotier.Ranking.{calc_popularities}
use autotier.Tiering.{simulate_tier}
use autotier.Transfer.{Batch, move_files, update_all}

module _ (E : Env) (sort : List (File E) → List (File E))
    (schedule : List Tier → List (ℕ × ℕ)) where
  -- The files in the order of their popularity, and the tiers with their usage measured.
  unfoldable pub gather_files :
      E.Double → ℕ → List (Tier × Nodes) → E.Db → List Tier × List (File E)
  gather_files period now backends db =
      let (tiers, files) = launch_crawlers E db 0 backends [] in
      (tiers, sort (calc_popularities E period now files))

  -- The plan, and what the transfers start from.
  unfoldable pub plan : List Tier → List (File E) → E.Db → OpenFiles → E.World → Batch E
  plan tiers files db open_files world = record {
    files = files;
    tiers = (simulate_tier E files tiers).0;
    db = db;
    open_files = open_files;
    world = world;
    course = going_on;
  }

  -- `update_db` and `files_.clear()`, after the joins, which need every thread to have ended.
  unfoldable pub finish : Batch E → Batch E
  finish s =
      if is_halted s.course then s else record s { db = update_all E s.files s.db; files = [] }

  unfoldable pub tier_round :
      E.Double → ℕ → ℕ → ℕ → Text → List (Tier × Nodes) → E.Db → OpenFiles → E.World → Batch E
  unfolding gather_files plan finish
  tier_round period now fuel buff_sz run_path backends db open_files world =
      let (tiers, files) = gather_files period now backends db in
      let s = plan tiers files db open_files world in
      finish (move_files E fuel buff_sz run_path (schedule s.tiers) s)
