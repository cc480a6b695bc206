-- ===== src/Transfer.antt =====
-- `Tier::transfer_files`, `File::transfer_to_tier` and `TierEngineTiering::move_files`, `update_db`:
-- the planned moves, one file at a time. The threads of `move_files`, one to a tier, share the
-- tiers' usage, the database and the world, and each holds the lock of what it changes; a
-- schedule is the order in which the files of all tiers are taken. Where an
-- exception ends the program, or a thread is in a copy that has not ended, nothing follows:
-- `course`. What other threads do during a copy stands before it in the schedule.
pub mod Balance
pub mod Record
pub mod Returning
use autotier.Base.{
  ℕ, zero, suc, ◌+◌, Text, codes, Bool, true, false, Option, none, some, List, [], ◌∷◌, ◌++◌,
  get_elem?, modify, map, if◌then◌else◌,
}
use autotier.Env.{Env, utimes, Course, going_on, threw, copying, is_halted}
use autotier.Metadata.{Metadata, update}
use autotier.Tier.{Tier, add_file_size, subtract_file_size}
use autotier.OpenFiles.{OpenFiles, is_open}
use autotier.File.{File, full_path, change_path, update_db}
use autotier.Copy.{Moved, moved, copy_failed, thrown, no_fuel, move_file}
use autotier.Conflicts.{add_conflict}

unfoldable pub clear_queue : Tier → Tier
clear_queue t = record t { incoming_files = []; sim_usage = 0 }

module _ (E : Env) where
  -- What the threads share.
  pub record Batch : Type 0 where
    pub files : List (File E)
    pub tiers : List Tier
    pub db : E.Db
    pub open_files : OpenFiles
    pub world : E.World
    pub course : Course

  -- The file once it is in tier `j`.
  unfoldable pub moved_file : File E → ℕ → Tier → File E
  moved_file f j tier = record f {
    tier_ptr = j;
    metadata = record metadata { tier_path = tier.path };
  }
    where
      open f use {metadata}

  -- `File::transfer_to_tier` of file `i` to tier `j`, which is `tier`.
  unfoldable pub transfer_to_tier : ℕ → File E → ℕ → Tier → Batch → Batch
  unfolding moved_file
  transfer_to_tier i f j tier s = record s {
    files = modify s.files i (λ _. moved_file f j tier);
    tiers =
        modify (modify s.tiers f.tier_ptr (subtract_file_size E f.size)) j (add_file_size E f.size);
    db = update E (moved_file f j tier).metadata f.relative_path none s.db;
  }

  -- `File::overwrite_times`.
  unfoldable pub overwrite_times : Tier → File E → E.World → E.World
  overwrite_times tier f w =
      (E.call
        (utimes (full_path E tier f) (f.atime_sec ∷ f.atime_usec ∷ f.mtime_sec ∷ f.mtime_usec ∷ []))
        w).1

  -- The path that a conflicting copy gets in the database.
  unfoldable pub conflict_name : File E → Text → Text
  conflict_name f orig_tier = f.relative_path ++ (codes ".autotier_conflict." ++ orig_tier)

  -- `if (conflicted)`: the file takes the name of the copy, and the conflict is logged.
  unfoldable pub settle_conflict : Text → ℕ → File E → Text → Text → Bool → Batch → Batch
  unfolding conflict_name
  settle_conflict run_path i f new_path orig_tier false s = s
  settle_conflict run_path i f new_path orig_tier true s =
      let (f', db') = change_path E (conflict_name f orig_tier) f s.db in
      record s {
        files = modify s.files i (λ _. f');
        db = db';
        world = add_conflict E new_path run_path s.world;
      }

  -- From `if (copy_success)` on.
  unfoldable pub after_move : Text → ℕ → File E → ℕ → Tier → Text → Text → Bool → Batch → Batch
  unfolding transfer_to_tier overwrite_times settle_conflict
  after_move run_path i f j tier new_path orig_tier conflicted s =
      let s1 = transfer_to_tier i f j tier s in
      let s2 = record s1 { world = overwrite_times tier (moved_file f j tier) s1.world } in
      settle_conflict run_path i (moved_file f j tier) new_path orig_tier conflicted s2

  -- What follows `move_file`.
  unfoldable pub after_result :
      Text → ℕ → File E → ℕ → Tier → Text → Text → Moved × E.World → Batch → Batch
  unfolding after_move
  after_result run_path i f j tier new_path orig_tier (moved conflicted, w) s =
      after_move run_path i f j tier new_path orig_tier conflicted (record s { world = w })
  after_result run_path i f j tier new_path orig_tier (copy_failed, w) s = record s { world = w }
  after_result run_path i f j tier new_path orig_tier (thrown, w) s = record s {
    world = w;
    course = threw;
  }
  after_result run_path i f j tier new_path orig_tier (no_fuel, w) s = record s {
    world = w;
    course = copying;
  }

  -- The body of the loop of `transfer_files`, for a file of tier `from`.
  unfoldable pub transfer_from : ℕ → ℕ → Text → ℕ → File E → Tier → ℕ → Tier → Batch → Batch
  unfolding after_result
  transfer_from fuel buff_sz run_path i f from j tier s =
      let old_path = full_path E from f in
      let new_path = full_path E tier f in
      if is_open old_path s.open_files
      then s
      else after_result run_path i f j tier new_path from.id
          (move_file E fuel old_path new_path buff_sz from.id s.world) s

  -- One file pointer of tier `j`'s queue. The pointers are valid where the simulation made them.
  unfoldable pub transfer_file : ℕ → ℕ → Text → ℕ × ℕ → Batch → Batch
  unfolding transfer_from
  transfer_file fuel buff_sz run_path (j, i) s = elim (get_elem? s.files i) [
    | none ↦ s
    | some f ↦ elim (get_elem? s.tiers j) [
      | none ↦ s
      | some tier ↦ elim (get_elem? s.tiers f.tier_ptr) [
        | none ↦ s
        | some from ↦
            if is_halted s.course then s else transfer_from fuel buff_sz run_path i f from j tier s
      ]
    ]
  ]

  unfoldable pub run_schedule : ℕ → ℕ → Text → List (ℕ × ℕ) → Batch → Batch
  run_schedule fuel buff_sz run_path [] s = s
  run_schedule fuel buff_sz run_path (next ∷ rest) s =
      run_schedule fuel buff_sz run_path rest (transfer_file fuel buff_sz run_path next s)

  -- The end of `transfer_files`, for every tier.
  unfoldable pub clear_queues : Batch → Batch
  clear_queues s = record s { tiers = map clear_queue s.tiers }

  -- The schedule in which the threads run one after the other, from tier `j` on.
  unfoldable pub in_order : ℕ → List Tier → List (ℕ × ℕ)
  in_order j [] = []
  in_order j (t ∷ ts) = map (λ i. (j, i)) t.incoming_files ++ in_order (suc j) ts

  unfoldable pub move_files : ℕ → ℕ → Text → List (ℕ × ℕ) → Batch → Batch
  unfolding run_schedule clear_queues clear_queue
  move_files fuel buff_sz run_path schedule s =
      clear_queues (run_schedule fuel buff_sz run_path schedule s)

  -- `TierEngineTiering::update_db`.
  unfoldable pub update_all : List (File E) → E.Db → E.Db
  update_all [] db = db
  update_all (f ∷ fs) db = update_all fs (update_db E f db)
